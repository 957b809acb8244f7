-- ===== src/Firmware/Persona/Session.antt =====
-- A session of the host with the firmware runs as one with the Python device.
use zwo_eaf_proxy.Base.{ℕ, suc, ◌≤◌, ◌≡◌, refl, ap, none, List, [], ◌∷◌, arith, All, map}
use zwo_eaf_proxy.Base.Int.{ℤ}
use zwo_eaf_proxy.Base.Result.{Result, ok, err}
use zwo_eaf_proxy.Base.Bytes.{IsByte}
use zwo_eaf_proxy.Float.{Float, IsFloat}
use zwo_eaf_proxy.Focuser.{Focuser, Contract}
use zwo_eaf_proxy.Persona.Protocol as Host
use zwo_eaf_proxy.Persona.Protocol.{read_register, write_state}
use zwo_eaf_proxy.Persona.Device.{
  Device, Request, set_report, get_report, apply, apply_parsed, handle_set_report,
  handle_get_report, current_reply, reply_body, state_body, handle, serve,
}
use zwo_eaf_proxy.Persona.Device.Safety.{IsReady, IsWire, handle-Answers}
use zwo_eaf_proxy.Firmware.Persona.{
  deliver, firmware_serve, FeatureRequest, set_feature, get_feature,
}
use zwo_eaf_proxy.Firmware.Persona.Agree.{IsSmall, mirror, set-agrees}
use zwo_eaf_proxy.Firmware.Persona.Replies.{Measures, Configured, payload_of, get-agrees}

-- The request that the host sends: a SET_REPORT begins with the report ID, and a GET_REPORT asks for it
-- too.
abbrev pub on_wire : FeatureRequest → Request
on_wire (set_feature report_id buffer) = set_report (report_id ∷ buffer)
on_wire (get_feature reqlen) = get_report (suc reqlen)

-- What the host may ask: bytes, with no position beyond an `int32_t`, and room for a whole report.
abbrev pub IsHostly : FeatureRequest → Type 0
IsHostly (set_feature report_id buffer) =
    All IsByte (report_id ∷ buffer) × IsSmall (Host.parse_command (report_id ∷ buffer))
IsHostly (get_feature reqlen) = 16 ≤ reqlen

hostly-IsWire : (q : FeatureRequest) → IsHostly q → IsWire (on_wire q)
hostly-IsWire (set_feature report_id buffer) h = h.0
hostly-IsWire (get_feature reqlen) h = tt

module _ (f : Float) (laws : IsFloat f) (o : Focuser) (c : Contract o) (centi : ℤ)
    (v : ℕ × ℕ × ℕ) where
  parsed-Configured :
      (p : Result Host.MalformedReport Host.Command) (d : Device f o)
      → Configured f laws o c centi v d
      → Configured f laws o c centi v (apply_parsed f o p d).1
  unfolding apply
  parsed-Configured (err e) d g = g
  parsed-Configured (ok (read_register n)) d g = record {
    version = g.version;
    centi_low = g.centi_low;
    centi_high = g.centi_high;
    fallback = g.fallback;
  }
  parsed-Configured (ok (write_state w)) d g = record {
    version = g.version;
    centi_low = g.centi_low;
    centi_high = g.centi_high;
    fallback = g.fallback;
  }

  reply-Configured :
      (d : Device f o)
      → Configured f laws o c centi v d
      → Configured f laws o c centi v (reply_body f o d).1
  unfolding reply_body state_body
  reply-Configured d g = ground arith

  handle-Configured :
      (q : Request) (d : Device f o)
      → Configured f laws o c centi v d
      → Configured f laws o c centi v (handle f o q d).1
  unfolding handle handle_set_report handle_get_report current_reply
  handle-Configured (set_report r) d g = parsed-Configured (Host.parse_command r) d g
  handle-Configured (get_report n) d g = reply-Configured d g

  deliver-agrees :
      (q : FeatureRequest) (d : Device f o)
      → Measures f laws o c
      → IsReady f o c d
      → Configured f laws o c centi v d
      → IsHostly q
      → deliver o q (mirror f o centi v d) ≡ (
        payload_of f laws o c centi v (handle f o (on_wire q) d).0,
        mirror f o centi v (handle f o (on_wire q) d).1,
      )
  unfolding deliver handle
  deliver-agrees (set_feature report_id buffer) d m r g h =
      let answered = handle-Answers f o c (set_report (report_id ∷ buffer)) d h.0 r in
      rw answered.0 (ap (λ p. (none, p)) (set-agrees f o centi v report_id buffer d h.0 h.1))
  deliver-agrees (get_feature reqlen) d m r g h = get-agrees f laws o c centi v reqlen d h m r g

  -- Over a lawful float arithmetic, on any focuser that keeps the contract and measures temperatures of 32
  -- bits, to which, as to the configured one, the bias can be added: from a device that is ready and the
  -- persona of the firmware with the same configuration and state, every session of the host, of bytes,
  -- positions below 2^31 and enough room for a report, gets the same answers byte for byte, and leaves the
  -- two, and the focuser, in the same state.
  pub firmware_serve-agrees :
      (qs : List FeatureRequest) (d : Device f o)
      → Measures f laws o c
      → IsReady f o c d
      → Configured f laws o c centi v d
      → All IsHostly qs
      → ((firmware_serve o qs (mirror f o centi v d)).0
          ≡ map (payload_of f laws o c centi v) (serve f o (map on_wire qs) d).0)
        × ((firmware_serve o qs (mirror f o centi v d)).1
            ≡ mirror f o centi v (serve f o (map on_wire qs) d).1)
  unfolding firmware_serve serve
  firmware_serve-agrees [] d m r g h = (refl, refl)
  firmware_serve-agrees (q ∷ qs) d m r g h =
      let ready = (handle-Answers f o c (on_wire q) d (hostly-IsWire q h.0) r).1 in
      let (answers, left) =
        firmware_serve-agrees qs (handle f o (on_wire q) d).1 m ready
          (handle-Configured (on_wire q) d g) h.1 in
      rw (deliver-agrees q d m r g h.0)
        (ap (λ t. payload_of f laws o c centi v (handle f o (on_wire q) d).0 ∷ t) answers, left)
