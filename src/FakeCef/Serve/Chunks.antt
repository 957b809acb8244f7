-- ===== src/FakeCef/Serve/Chunks.antt =====
-- However the port cuts the bytes of the probe into chunks, the controller serves the same lines.
use zwo_eaf_proxy.Base.{
  ℕ, ◌≡◌, ◌≢◌, refl, sym, ap, ◌∙◌, Bool, true, false, Option, none, some, List, [], ◌∷◌, ◌++◌, ◌==◌,
  append_assoc, All, Bool-cases, inl, inr,
}
use zwo_eaf_proxy.Base.Bytes.{Bytes}
use zwo_eaf_proxy.Float.{Float}
use zwo_eaf_proxy.Text.{Text}
use zwo_eaf_proxy.FakeCef.{Controller}
use zwo_eaf_proxy.FakeCef.Serve.{Served, serve_chunk, serve_reads, go_on, answered}

-- Two runs of `serve` wrote the same and left the same controller, both go on or both ended with an
-- exception, and where they go on they hold the same bytes.
pub record Same (f : Float) (r r' : Served f) : Type 0 where
  pub sent : r.sent ≡ r'.sent
  pub controller : r.controller ≡ r'.controller
  pub alive : r.alive ≡ r'.alive
  pub buf : r.alive ≡ true → r.buf ≡ r'.buf

abbrev pub joined : List Bytes → Bytes
joined [] = []
joined (c ∷ cs) = c ++ joined cs

module _ (f : Float) (clock : ℕ → f.F) (float_of : Text → Option f.F)
    (aperture_min aperture_max : f.F) where
  abbrev chunk_served : Bytes → Bytes → Controller f → Served f
  chunk_served = serve_chunk f clock float_of aperture_min aperture_max

  abbrev resumed : Served f → Bytes → Served f
  resumed r chunk =
      go_on f clock float_of aperture_min aperture_max r.alive r
        (chunk_served r.buf chunk r.controller)

  abbrev behind : Text → Served f → Served f
  behind t r = record r { sent = t ++ (b'\n' ∷ r.sent) }

  Same-refl : (r : Served f) → Same f r r
  Same-refl r = record { sent = refl; controller = refl; alive = refl; buf = λ h. refl }

  Same-behind : (t : Text) (r r' : Served f) → Same f r r' → Same f (behind t r) (behind t r')
  Same-behind t r r' h = record {
    sent = ap (λ s. t ++ (b'\n' ∷ s)) h.sent;
    controller = h.controller;
    alive = h.alive;
    buf = h.buf;
  }

  go_on-behind :
      (alive : Bool) (t : Text) (r rest : Served f)
      → behind t (go_on f clock float_of aperture_min aperture_max alive r rest)
        ≡ go_on f clock float_of aperture_min aperture_max alive (behind t r) rest
  go_on-behind true t r rest = rw (append_assoc t (b'\n' ∷ r.sent)) refl
  go_on-behind false t r rest = refl

  answered-append :
      (r : Option Text × Controller f) (next next' : Controller f → Served f) (rest chunk : Bytes)
      → ((c : Controller f) → Same f (next' c) (resumed (next c) chunk))
      → Same f
          (answered f clock float_of aperture_min aperture_max r next' (rest ++ chunk))
          (resumed (answered f clock float_of aperture_min aperture_max r next rest) chunk)
  answered-append (none, c) next next' rest chunk h = record {
    sent = refl;
    controller = refl;
    alive = refl;
    buf = λ e. cc;
  }
  answered-append (some t, c) next next' rest chunk h =
      let n = next c in
      rw (sym (go_on-behind n.alive t n (chunk_served n.buf chunk n.controller)))
        (Same-behind t (next' c) (resumed n chunk) (h c))

  -- Two chunks, the second from what the first leaves
  serve_chunk-append :
      (buf a chunk : Bytes) (c : Controller f)
      → Same f (chunk_served buf (a ++ chunk) c) (resumed (chunk_served buf a c) chunk)
  unfolding serve_chunk
  serve_chunk-append buf [] chunk c = Same-refl _
  serve_chunk-append buf (b ∷ bs) chunk c = elim (Bool-cases (b == b'\n')) [
    | inl e ↦ rw e (answered-append _ _ _ bs chunk (λ c'. serve_chunk-append [] bs chunk c'))
    | inr e ↦ rw e (serve_chunk-append (buf ++ (b ∷ [])) bs chunk c)
  ]

  Same-sym : (r r' : Served f) → Same f r r' → Same f r' r
  Same-sym r r' h = record {
    sent = sym h.sent;
    controller = sym h.controller;
    alive = sym h.alive;
    buf = λ e. sym (h.buf (h.alive ∙ e));
  }

  Same-trans : (r r' r'' : Served f) → Same f r r' → Same f r' r'' → Same f r r''
  Same-trans r r' r'' h g = record {
    sent = h.sent ∙ g.sent;
    controller = h.controller ∙ g.controller;
    alive = h.alive ∙ g.alive;
    buf = λ e. h.buf e ∙ g.buf (sym h.alive ∙ e);
  }

  go_on-Same :
      (alive : Bool) (r rest rest' : Served f)
      → Same f rest rest'
      → Same f
          (go_on f clock float_of aperture_min aperture_max alive r rest)
          (go_on f clock float_of aperture_min aperture_max alive r rest')
  go_on-Same true r rest rest' h = record {
    sent = ap (λ s. r.sent ++ s) h.sent;
    controller = h.controller;
    alive = h.alive;
    buf = h.buf;
  }
  go_on-Same false r rest rest' h = Same-refl r

  -- Whatever reads, none of them empty, the bytes of the port come in, `serve` writes the same answers and
  -- leaves the same controller as when they come in one, and it ends with an exception of `reply` in both
  -- cases or in neither; while it goes on, it holds the same bytes of a line that has not ended.
  pub serve_reads-joined :
      (buf : Bytes) (chunks : List Bytes) (c : Controller f)
      → All (λ chunk. chunk ≢ []) chunks
      → Same f
          (serve_reads f clock float_of aperture_min aperture_max buf chunks c)
          (serve_chunk f clock float_of aperture_min aperture_max buf (joined chunks) c)
  unfolding serve_reads
  serve_reads-joined buf [] c h = unfold serve_chunk in Same-refl _
  serve_reads-joined buf ([] ∷ chunks) c h = absurd (h.0 refl)
  serve_reads-joined buf ((b ∷ bs) ∷ chunks) c h =
      let r = chunk_served buf (b ∷ bs) c in
      Same-trans _ _ _ (go_on-Same r.alive r _ _ (serve_reads-joined r.buf chunks r.controller h.1))
        (Same-sym _ _ (serve_chunk-append buf (b ∷ bs) (joined chunks) c))
