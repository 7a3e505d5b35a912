-- ===== src/Config/Validate/Limits.antt =====
-- config.cpp, `ConfigParser::validate`: which configurations pass.
use ip_server.Base.{
  ◌-◌, ◌+◌, ◌-◌, ◌+◌, ℕ, ◌≤◌, ◌*◌, ◌/◌, ◌≡◌, refl, sym, ap, ◌∙◌, ◌⊎◌, inl, inr, ◌↔◌, Bool, true,
  false, Option, none, some, arith, if◌then◌else◌, Bool-cases,
}
use ip_server.Base.Int.{ℤ, pos, ◌≤ℤ◌}
use ip_server.Base.Text.{Str, codes, str_eq, str_eq_iff}
use ip_server.Config.{ServerConfig}
use ip_server.Config.Validate.{
  bad_rotation, ConfigError, mb, then_check, check_range, check_rotation, check_logging, validate,
}

abbrev pub Within : (value min max : ℤ) → Type 0
Within value min max = min ≤ℤ value × value ≤ℤ max

-- The limits on the log file.
abbrev pub WithinLogLimits : ServerConfig → Type 0
WithinLogLimits c =
    ((c.log_rotation_type ≡ codes "none") ⊎ (c.log_rotation_type ≡ codes "size"))
    × (((mb ≤ c.log_max_file_size) × (c.log_max_file_size ≤ 1024 * mb + (mb - 1)))
        × Within c.log_max_backup_files (pos 0) (pos 100))

-- The limits of config.h, with the conditions under which they are checked.
abbrev pub WithinLimits : ServerConfig → Type 0
WithinLimits c =
    Within (pos c.port) (pos 1) (pos 65535)
    × (Within c.thread_pool_size (pos 1) (pos 64)
        × ((c.enable_rate_limiter ≡ true → Within c.max_requests_per_minute (pos 1) (pos 10000))
            × (Within c.max_batch_size (pos 1) (pos 1000)
                × (c.enable_file_logging ≡ true → WithinLogLimits c))))

then_check_lem : (a b : Option ConfigError) → (then_check a b ≡ none) ↔ ((a ≡ none) × (b ≡ none))
unfolding then_check
then_check_lem none b = ((λ e. (refl, e)), λ p. p.1)
then_check_lem (some e) b = ((λ q. absurd (cc q)), λ p. absurd (cc (p.0)))

check_range_lem :
    (name : Str) (v min max : ℤ) → (check_range name v min max ≡ none) ↔ Within v min max
unfolding check_range
check_range_lem name v min max = ground arith

check_rotation_lem :
    (t : Str) → (check_rotation t ≡ none) ↔ ((t ≡ codes "none") ⊎ (t ≡ codes "size"))
unfolding check_rotation
check_rotation_lem t = (
  (λ e. elim (Bool-cases (str_eq (codes "none") t)) [
    | inl n ↦ inl (sym ((str_eq_iff (codes "none") t).0 n))
    | inr n ↦ elim (Bool-cases (str_eq (codes "size") t)) [
      | inl z ↦ inr (sym ((str_eq_iff (codes "size") t).0 z))
      | inr z ↦
          let q : check_rotation t ≡ some bad_rotation = rw (n, z, check_rotation) refl in
          absurd (cc (sym q ∙ e))
    ]
  ]),
  λ s. elim s [ inl e ↦ ap check_rotation e | inr e ↦ ap check_rotation e ],
)

check_if :
    (b : Bool) (a : Option ConfigError) → ((if b then a else none) ≡ none) ↔ (b ≡ true → a ≡ none)
check_if true a = ((λ e _. e), λ f. f refl)
check_if false a = ((λ _ e. absurd (cc e)), λ _. refl)

-- The checks of a chain all pass, in the order of the chain.
and_then :
    {a b : Option ConfigError} {P Q : Type 0}
    → (a ≡ none) ↔ P
    → (b ≡ none) ↔ Q
    → (then_check a b ≡ none) ↔ (P × Q)
and_then {a} {b} f g = (
  (λ e. let p = (then_check_lem a b).0 e in (f.0 p.0, g.0 p.1)),
  λ p. (then_check_lem a b).1 (f.1 p.0, g.1 p.1),
)

when_on :
    {b : Bool} {a : Option ConfigError} {P : Type 0}
    → (a ≡ none) ↔ P
    → ((if b then a else none) ≡ none) ↔ (b ≡ true → P)
when_on {b} {a} f =
    ((λ e on. f.0 ((check_if b a).0 e on)), λ h. (check_if b a).1 (λ on. f.1 (h on)))

size_lem :
    (n : ℕ) → Within (pos (n / mb)) (pos 1) (pos 1024) ↔ ((mb ≤ n) × (n ≤ 1024 * mb + (mb - 1)))
size_lem n = ground arith

check_logging_lem : (c : ServerConfig) → (check_logging c ≡ none) ↔ WithinLogLimits c
unfolding check_logging
check_logging_lem c =
    let r = and_then (check_rotation_lem c.log_rotation_type) (
      and_then
        (check_range_lem (codes "Log max file size (MB)") (pos (c.log_max_file_size / mb)) (pos 1)
          (pos 1024))
        (check_range_lem (codes "Log max backup files") c.log_max_backup_files (pos 0)
          (pos 100))) in
    let z = size_lem c.log_max_file_size in
    ((λ e. let p = r.0 e in (p.0, (z.0 p.1.0, p.1.1))), λ p. r.1 (p.0, (z.1 p.1.0, p.1.1)))

-- A configuration passes exactly when its values are within the limits of config.h: those of the
-- rate limiter and of the log file count only when these are on, and a log file may be up to one
-- byte short of 1 GB and 1 MB.
pub validate_lem : (c : ServerConfig) → (validate c ≡ none) ↔ WithinLimits c
unfolding validate
validate_lem c = and_then (check_range_lem (codes "Port") (pos c.port) (pos 1) (pos 65535)) (
    and_then (check_range_lem (codes "Thread pool size") c.thread_pool_size (pos 1) (pos 64)) (
      and_then
        (when_on (
          check_range_lem (codes "Max requests per minute") c.max_requests_per_minute (pos 1)
            (pos 10000)))
        (and_then (check_range_lem (codes "Max batch size") c.max_batch_size (pos 1) (pos 1000))
          (when_on (check_logging_lem c)))))
