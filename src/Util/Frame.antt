-- ===== src/Util/Frame.antt =====
-- Reading back the framing with "length prefix so ("ab","c") and ("a","bc") can't collide".
use distcompile.Prelude.{
  ℕ, zero, suc, ◌^◌, ◌/◌, ◌%◌, ◌<◌, ◌≡◌, refl, sym, ap, ◌∙◌, List, [], ◌∷◌, ◌++◌, Text, arith,
  length, All,
}
use native.Mathlib.Nat.{pow-suc}
use distcompile.Util.{le_bytes, frame}

-- Two texts of one length at the head of equal texts are equal, and so are the rests.
append-injective {ℓ} :
    {A : Type ℓ} (s t u v : List A) → length s ≡ length t → s ++ u ≡ t ++ v → (s ≡ t) × (u ≡ v)
append-injective [] [] u v n e = (refl, e)
append-injective [] (y ∷ t) u v n e = absurd (omega arith)
append-injective (x ∷ s) [] u v n e = absurd (omega arith)
append-injective (x ∷ s) (y ∷ t) u v n e =
    let (same, rest) = append-injective s t u v (omega arith) (cc) in (cc, rest)

length-le_bytes : (k n : ℕ) → length (le_bytes k n) ≡ k
unfolding le_bytes
length-le_bytes zero n = refl
length-le_bytes (suc k) n = ap suc (length-le_bytes k (n / 256))

le_bytes-injective : (k m n : ℕ) → m < 256 ^ k → n < 256 ^ k → le_bytes k m ≡ le_bytes k n → m ≡ n
unfolding le_bytes
le_bytes-injective zero m n hm hn e = omega arith
le_bytes-injective (suc k) m n hm hn e =
    let low : m % 256 ≡ n % 256 = cc in
    let high =
      le_bytes-injective k (m / 256) (n / 256) (omega (arith, pow-suc 256 k))
        (omega (arith, pow-suc 256 k)) (cc) in
    omega arith

-- Two lists of parts, each shorter than 2^64 bytes, that feed the same bytes to the digest are
-- equal.
pub frame-injective :
    (ps qs : List Text)
    → All (λ p. length p < 2 ^ 64) ps
    → All (λ q. length q < 2 ^ 64) qs
    → frame ps ≡ frame qs
    → ps ≡ qs
unfolding frame
frame-injective [] [] hp hq e = refl
frame-injective [] (q ∷ qs) hp hq e = absurd (omega (arith, ap length e))
frame-injective (p ∷ ps) [] hp hq e = absurd (omega (arith, ap length e))
frame-injective (p ∷ ps) (q ∷ qs) hp hq e =
    let (head, tail) =
      append-injective (le_bytes 8 (length p)) (le_bytes 8 (length q)) (p ++ frame ps)
        (q ++ frame qs) (length-le_bytes 8 (length p) ∙ sym (length-le_bytes 8 (length q))) e in
    let same = le_bytes-injective 8 (length p) (length q) hp.0 hq.0 head in
    let (first, rest) = append-injective p q (frame ps) (frame qs) same tail in
    cc (first, frame-injective ps qs hp.1 hq.1 rest)
