-- ===== src/Auth/Digest.antt =====
-- auth.cpp, `sha256Hash`: the digest as text.
use ip_server.Base.{
  zero, ltb, if◌then◌else◌, suc, ℕ, ◌+◌, ◌*◌, ◌/◌, ◌%◌, ◌<◌, ◌≡◌, refl, sym, ◌∙◌, List, [], ◌∷◌,
  arith, length, All, get_or,
}
use ip_server.Base.Text.{Str}
use ip_server.Auth.{hex_digits, hex_encode}

abbrev pub IsByte : ℕ → Type 0
IsByte b = b < 256

digit_at : (a : ℕ) → a < 16 → get_or hex_digits a 0 ≡ (if ltb a 10 then 48 + a else 87 + a)
digit_at zero h = refl
digit_at (suc zero) h = refl
digit_at (suc (suc zero)) h = refl
digit_at (suc (suc (suc zero))) h = refl
digit_at (suc (suc (suc (suc zero)))) h = refl
digit_at (suc (suc (suc (suc (suc zero))))) h = refl
digit_at (suc (suc (suc (suc (suc (suc zero)))))) h = refl
digit_at (suc (suc (suc (suc (suc (suc (suc zero))))))) h = refl
digit_at (suc (suc (suc (suc (suc (suc (suc (suc zero)))))))) h = refl
digit_at (suc (suc (suc (suc (suc (suc (suc (suc (suc zero))))))))) h = refl
digit_at (suc (suc (suc (suc (suc (suc (suc (suc (suc (suc zero)))))))))) h = refl
digit_at (suc (suc (suc (suc (suc (suc (suc (suc (suc (suc (suc zero))))))))))) h = refl
digit_at (suc (suc (suc (suc (suc (suc (suc (suc (suc (suc (suc (suc zero)))))))))))) h = refl
digit_at (suc (suc (suc (suc (suc (suc (suc (suc (suc (suc (suc (suc (suc zero))))))))))))) h = refl
digit_at (suc (suc (suc (suc (suc (suc (suc (suc (suc (suc (suc (suc (suc (suc zero))))))))))))))
      h =
    refl
digit_at
      (suc (suc (suc (suc (suc (suc (suc (suc (suc (suc (suc (suc (suc (suc (suc zero)))))))))))))))
      h =
    refl
digit_at
      (suc
        (suc (suc (suc (suc (suc (suc (suc (suc (suc (suc (suc (suc (suc (suc (suc a))))))))))))))))
      h =
    absurd (omega (arith, h))

digit-inj : (a b : ℕ) → a < 16 → b < 16 → get_or hex_digits a 0 ≡ get_or hex_digits b 0 → a ≡ b
digit-inj a b p q e = ground (arith, sym (digit_at a p) ∙ e ∙ digit_at b q)

head_eq : {a b : ℕ} {s t : Str} → (a ∷ s) ≡ (b ∷ t) → a ≡ b
head_eq e = cc

tail_eq : {a b : ℕ} {s t : Str} → (a ∷ s) ≡ (b ∷ t) → s ≡ t
tail_eq e = cc

-- Two digests with the same text are the same.
pub hex_encode-inj :
    (xs ys : List ℕ) → All IsByte xs → All IsByte ys → hex_encode xs ≡ hex_encode ys → xs ≡ ys
unfolding hex_encode
hex_encode-inj [] [] p q e = refl
hex_encode-inj [] (y ∷ ys) p q e = cc
hex_encode-inj (x ∷ xs) [] p q e = cc
hex_encode-inj (x ∷ xs) (y ∷ ys) (px, p) (qy, q) e =
    let high = digit-inj (x / 16) (y / 16) (omega (arith, px)) (omega (arith, qy)) (head_eq e) in
    let low = digit-inj (x % 16) (y % 16) (omega arith) (omega arith) (head_eq (tail_eq e)) in
    let same : x ≡ y = omega (arith, high, low) in
    let rest = hex_encode-inj xs ys p q (tail_eq (tail_eq e)) in cc

pub length-hex_encode : (xs : List ℕ) → length (hex_encode xs) ≡ 2 * length xs
unfolding hex_encode
length-hex_encode [] = omega arith
length-hex_encode (x ∷ xs) = omega (arith, length-hex_encode xs)
