-- ===== src/Claims/Registered/Laws.antt =====
-- The times of a claim set read back as they were written, cut to the precision of a date.
use jwtmint.Prelude.{String, ◌≡◌, refl, false, some}
use jwtmint.Errors.{ok}
use jwtmint.Time.{Time, is_zero}
use jwtmint.Dict.{lookup}
use jwtmint.Dict.Laws.{lookup-insert}
use jwtmint.Claims.Value.{date_ptr, Claims, Host}
use jwtmint.Claims.Keys.{key_expires_at}
use jwtmint.Claims.Read.{read_time}
use jwtmint.Claims.Registered.{expires_at, set_expires_at}

-- What golang-jwt documents of a date: it is a time cut to a precision, so cutting again changes
-- nothing.
abbrev pub CutsDates : {F : Type 0} → Host F → Type 0
CutsDates host = (t : Time) → host.numeric_date (host.numeric_date t) ≡ host.numeric_date t

module _ {F : Type 0} (host : Host F) (cuts : CutsDates host) where
  -- A date that a claim holds is read back.
  pub read_time-date :
      (c : Claims F) (key : String) (t : Time)
      → lookup key c ≡ some (date_ptr (some (host.numeric_date t)))
      → is_zero (host.numeric_date t) ≡ false
      → read_time host c key ≡ ok (host.numeric_date t)
  unfolding read_time
  read_time-date c key t h z = rw (h, z, cuts t) refl

  -- ExpiresAt reads back the time that SetExpiresAt wrote, as the date that golang-jwt makes of
  -- it, if cutting a date twice is cutting it once and the date is not the zero time.
  pub expires_at-set_expires_at :
      (c : Claims F) (t : Time)
      → is_zero (host.numeric_date t) ≡ false
      → expires_at host (set_expires_at host c t) ≡ ok (host.numeric_date t)
  unfolding expires_at set_expires_at
  expires_at-set_expires_at c t z =
      read_time-date (set_expires_at host c t) key_expires_at t (rw lookup-insert refl) z
