-- ===== src/Pinefeat/Tests.antt =====
-- Exchanges with the controller, and the theorems at concrete inputs.
use zwo_eaf_proxy.Base.{◌≡◌, refl, [], ◌∷◌, ◌++◌}
use zwo_eaf_proxy.Base.Int.{pos, negsuc}
use zwo_eaf_proxy.Base.Result.{ok, err, ◌>>=◌}
use zwo_eaf_proxy.Text.{decimal, rstrip, lstrip, int_of, signed_value, digits_value}
use zwo_eaf_proxy.Pinefeat.{not_an_int, unframe, check, parse_position, set_aperture}
use zwo_eaf_proxy.Pinefeat.Replies.{parse_position-decimal, unframe-append}

-- "-40" reads as a negative number, and "y" is no number.
negative_position : parse_position (b'-' ∷ b'4' ∷ b'0' ∷ []) ≡ ok (negsuc 39)
unfolding parse_position check int_of rstrip lstrip signed_value digits_value
negative_position = refl

no_number : parse_position (b'y' ∷ []) ≡ err (not_an_int (b'y' ∷ []))
unfolding parse_position check int_of rstrip lstrip signed_value digits_value
no_number = refl

-- "2.80000" becomes "a2.8", and "16.00000" becomes "a16".
aperture_2_8 :
    set_aperture (b'2' ∷ b'.' ∷ b'8' ∷ b'0' ∷ b'0' ∷ b'0' ∷ b'0' ∷ [])
    ≡ b'a' ∷ b'2' ∷ b'.' ∷ b'8' ∷ []
unfolding set_aperture rstrip
aperture_2_8 = refl

aperture_16 :
    set_aperture (b'1' ∷ b'6' ∷ b'.' ∷ b'0' ∷ b'0' ∷ b'0' ∷ b'0' ∷ b'0' ∷ [])
    ≡ b'a' ∷ b'1' ∷ b'6' ∷ []
unfolding set_aperture rstrip
aperture_16 = refl

unframe-append_example : unframe ((b'o' ∷ b'k' ∷ []) ++ (13 ∷ 10 ∷ [])) ≡ ok (b'o' ∷ b'k' ∷ [])
unframe-append_example =
    unframe-append (b'o' ∷ b'k' ∷ []) (13 ∷ 10 ∷ []) refl (refl, (refl, tt)) refl

parse_position-decimal_example :
    (unframe (decimal 4711 ++ (13 ∷ 10 ∷ [])) >>= parse_position) ≡ ok (pos 4711)
parse_position-decimal_example = parse_position-decimal 4711 (13 ∷ 10 ∷ []) refl
