-- ===== src/Config/Files/Accepted.antt =====
-- config.cpp, `parse`: what a run with options comes to.
use ip_server.Base.{none, ℕ, ◌≡◌, refl, ◌⊎◌, inl, inr, Option, some, Option-cases}
use ip_server.Base.Int.{ℤ}
use ip_server.Base.Text.{Str, codes}
use ip_server.Json.{Json}
use ip_server.Config.{ServerConfig}
use ip_server.Config.Validate.{ConfigError, validate}
use ip_server.Config.Validate.Limits.{WithinLimits, validate_lem}
use ip_server.Config.Overrides.{Given}
use ip_server.Config.Files.{FileSystem, Parsed, accepted, invalid, checked}

-- What the command line gives for where the server is and what it reads is what holds.
abbrev pub Wins : Given → ServerConfig → Type 0
Wins g c =
    ((h : Str) → g.text (codes "host") ≡ some h → c.host ≡ h)
    × ((p : ℕ) → g.port ≡ some p → c.port ≡ p)
    × ((n : ℤ) → g.int (codes "threads") ≡ some n → c.thread_pool_size ≡ n)
    × ((f : Str) → g.text (codes "city-db") ≡ some f → c.city_db_path ≡ f)
    × ((f : Str) → g.text (codes "asn-db") ≡ some f → c.asn_db_path ≡ f)
    × ((f : Str) → g.text (codes "oui-db") ≡ some f → c.oui_db_path ≡ f)

-- A configuration within the limits is accepted, and no other.
abbrev pub IsJudged : ServerConfig → Parsed → Type 0
IsJudged c out =
    ((out ≡ accepted c) × WithinLimits c)
    ⊎ ((e : ConfigError) × (out ≡ invalid e) × ¬ WithinLimits c)

module _ {J : Json} (F : FileSystem J) (stoll : Str → Option ℤ) (stoull : Str → Option ℕ) where
  pub checked-IsJudged : (c : ServerConfig) → IsJudged c (checked F stoll stoull c)
  unfolding checked
  checked-IsJudged c = elim (Option-cases (validate c)) [
    | inl v ↦ inl (rw (checked, v) refl, (validate_lem c).0 v)
    | inr (e, v) ↦ inr (e, rw (checked, v) refl, λ w. cc (v, (validate_lem c).1 w))
  ]

  pub checked_inv :
      (x c : ServerConfig) → checked F stoll stoull x ≡ accepted c → (validate x ≡ none) × (x ≡ c)
  unfolding checked
  checked_inv x c e = elim (Option-cases (validate x)) [
    | inl v ↦ let q : checked F stoll stoull x ≡ accepted x = rw (checked, v) refl in (v, cc (q, e))
    | inr (err, v) ↦
        let q : checked F stoll stoull x ≡ invalid err = rw (checked, v) refl in absurd (cc (q, e))
  ]
