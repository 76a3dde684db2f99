-- ===== src/Shortcuts/Offsets.antt =====
-- The server's time, and the warning where the browser's differs.
use bluetooth_autonomous_car.Prelude.{
  zero, suc, ◌+◌, ◌*◌, ◌≡◌, ◌↔◌, refl, ap, arith, false, none, some, ℤ, pos, negsuc, pos_part,
  neg_part, ◌+ℤ◌, ◌-ℤ◌, int_laws, eq_of_parts, -ℤ_parts,
}
use bluetooth_autonomous_car.Shortcuts.{scale, local_offset, now, timezone_offset, timezone_warning}

scale_parts :
    (z : ℤ)
    → pos_part (scale 1000 z) + 1000 * neg_part z ≡ neg_part (scale 1000 z) + 1000 * pos_part z
scale_parts z = ground arith

-- Where the page names the server's offset, local time at the moment `now`, in milliseconds, is the
-- server's time at the browser's moment.
pub now_lem :
    (server_offset minutes time : ℤ)
    → now (some server_offset) minutes time +ℤ scale 1000 (local_offset minutes)
      ≡ time +ℤ scale 1000 server_offset
unfolding now
now_lem server_offset minutes time = omega (
  int_laws,
  scale_parts (server_offset -ℤ local_offset minutes),
  scale_parts (local_offset minutes),
  scale_parts server_offset,
)

no_warning : (z : ℤ) → (timezone_warning z false ≡ none) ↔ (z ≡ pos 0)
unfolding timezone_warning
no_warning (pos zero) = (λ e. refl, λ e. refl)
no_warning (pos (suc n)) = (λ e. cc, λ e. cc)
no_warning (negsuc n) = (λ e. cc, λ e. cc)

-- A field without a warning gets none just when the offsets of the browser and the server agree.
pub timezone_warning-timezone_offset :
    (server_offset minutes : ℤ)
    → (timezone_warning (timezone_offset (some server_offset) minutes) false ≡ none)
      ↔ (local_offset minutes ≡ server_offset)
unfolding timezone_offset
timezone_warning-timezone_offset server_offset minutes = (
  λ e.
      let z = (no_warning (local_offset minutes -ℤ server_offset)).0 e in
      eq_of_parts _ _ (
        omega (arith, ap pos_part z, ap neg_part z, -ℤ_parts (local_offset minutes) server_offset)),
  λ e. (no_warning (local_offset minutes -ℤ server_offset)).1 (
      eq_of_parts _ _ (
        omega
          (arith, ap pos_part e, ap neg_part e, -ℤ_parts (local_offset minutes) server_offset))),
)
