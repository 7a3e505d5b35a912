-- ===== src/Password/Accepts.antt =====
-- password_generator.cpp, `validate_config`: what it accepts.
use ip_server.Base.{◌≡◌, ◌↔◌, Bool, true, not, ◌&&◌, ◌||◌, none, some, if◌then◌else◌, arith}
use ip_server.Base.Int.{ℤ, pos, ltb_ℤ, ◌≤ℤ◌}
use ip_server.Base.Text.{Str, codes}
use ip_server.Password.{PasswordConfig, validate_config}

-- A length from 8 to 128, and a kind of character that is on.
abbrev pub IsAcceptable : PasswordConfig → Type 0
IsAcceptable c =
    (pos 8 ≤ℤ c.length)
    × (c.length ≤ℤ pos 128)
    × ((c.uppercase || c.lowercase || c.digits || c.symbols) ≡ true)

tests_iff :
    (n : ℤ) (u l d s : Bool) (x y z : Str)
    → ((if ltb_ℤ n (pos 8)
          then some x
          else if ltb_ℤ (pos 128) n
          then some y
          else if not u && not l && not d && not s
          then some z
          else none)
        ≡ none)
      ↔ ((pos 8 ≤ℤ n) × (n ≤ℤ pos 128) × ((u || l || d || s) ≡ true))
tests_iff n u l d s x y z = ground arith

pub validate_config_iff : (c : PasswordConfig) → (validate_config c ≡ none) ↔ IsAcceptable c
unfolding validate_config
validate_config_iff c =
    tests_iff c.length c.uppercase c.lowercase c.digits c.symbols
      (codes "Password length must be at least 8 characters")
      (codes "Password length must not exceed 128 characters")
      (codes "At least one character type must be enabled")
