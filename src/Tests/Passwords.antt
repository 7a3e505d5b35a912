-- ===== src/Tests/Passwords.antt =====
-- The password generator at small inputs: the first character of every set is drawn, and nothing
-- is shuffled.
use ip_server.Base.{arith, ℕ, inr, some, length, All, ◌≡◌, refl, true, false, none}
use ip_server.Base.Int.{pos}
use ip_server.Base.Text.{contains, codes}
use ip_server.Password.Accepts.{IsAcceptable}
use ip_server.Password.Similar.{may_have, generate-may_have}
use ip_server.Password.{
  generate, PasswordResult, PasswordConfig, validate_config, build_character_sets, remove_all,
  filtered, add_chars, add_set,
}

program : Unit {0}
unfolding validate_config build_character_sets remove_all filtered add_chars add_set
program = tt

abbrev config : PasswordConfig
config = record {
  length = pos 8;
  uppercase = true;
  lowercase = false;
  digits = true;
  symbols = false;
  exclude_similar = true;
}

passes : validate_config config ≡ none
unfolding program
passes = refl

pool_of_config : (build_character_sets config).pool ≡ codes "ABCDEFGHJKLMNPQRSTUVWXYZ23456789"
unfolding program
pool_of_config = refl

config-IsAcceptable : IsAcceptable config
config-IsAcceptable = (omega arith, omega arith, refl)

-- A double is a number of bits here.
generate-may_have_example :
    (r : PasswordResult ℕ) × (generate (λ i n. 0) (λ s. s) (λ n size. n) (λ d n. true) config
      ≡ some (inr r))
    × (length r.password ≡ 8)
    × All (λ a. may_have config a ≡ true) r.password
    × ((a : ℕ) → contains a (build_character_sets config).pool ≡ may_have config a)
generate-may_have_example =
    generate-may_have (λ i n. 0) (λ i n. omega arith) (λ s. s) (λ s. (refl, λ pool w. w))
      (λ n size. n) (λ d n. true) config config-IsAcceptable
