-- ===== src/Pipeline/Backoff.antt =====
-- defaultBackoff of internal/pipeline/pipeline.go, less its random factor, in nanoseconds.
use coeus.Prelude.{
  ℕ, ◌+◌, ◌-◌, ◌*◌, ◌%◌, ◌^◌, ◌<◌, ◌≡◌, refl, all_below-elem, Bool, ltb, ◌==◌, ==_iff,
  if◌then◌else◌,
}

abbrev pub backoff_base : ℕ
backoff_base = 1_000_000_000

abbrev pub backoff_cap : ℕ
backoff_cap = 8_000_000_000

-- `backoffBase << (attempt - 1)` as an int64: a negative one is a bit pattern above the cap.
abbrev shifted : ℕ → ℕ
shifted attempt = backoff_base * 2 ^ (attempt - 1) % 2 ^ 64

unfoldable pub backoff_center : ℕ → ℕ
backoff_center attempt =
    let n = if ltb attempt 1 then 1 else attempt in
    if ltb backoff_cap (shifted n) then backoff_cap else shifted n

abbrev doubled : ℕ → Bool
doubled n = backoff_center (n + 1) == (if ltb n 3 then backoff_base * 2 ^ n else backoff_cap)

-- Attempts 1 to 55 wait 1, 2 and 4 seconds and then the cap of 8: the wrap-around of the shift
-- never gives a shorter delay.
pub backoff_center-doubles :
    (n : ℕ)
    → n < 55
    → backoff_center (n + 1) ≡ (if ltb n 3 then backoff_base * 2 ^ n else backoff_cap)
unfolding backoff_center
backoff_center-doubles n lt = (==_iff _ _).0 (all_below-elem doubled 55 n refl lt)
