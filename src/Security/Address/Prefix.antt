-- ===== src/Security/Address/Prefix.antt =====
-- A rule matches an address exactly when their first `prefix_len` bits agree.
use Prim.Native.Nat.{bit_and}
use asio_owen.Prelude.{
  ℕ, zero, suc, ◌+◌, ◌*◌, ◌/◌, ◌%◌, ◌<◌, ◌≤◌, Bool, true, false, ◌&&◌, ◌||◌, List, [], ◌∷◌, ◌++◌,
  ◌==◌, ◌≡◌, ◌↔◌, refl, ◌∙◌, arith, some, Bytes, IsBytes, get_elem?, take, length, Bool-cases, inl,
  inr, if◌then◌else◌,
}
use asio_owen.Security.Address.{same_bytes, prefix_mask, same_masked, match_bytes}

abbrev pub byte_bits : ℕ → List ℕ
byte_bits b =
    b / 128 ∷ b / 64 % 2 ∷ b / 32 % 2 ∷ b / 16 % 2 ∷ b / 8 % 2 ∷ b / 4 % 2 ∷ b / 2 % 2 ∷ b % 2 ∷ []

-- The bits of a list of bytes, most significant first.
abbrev pub bits : Bytes → List ℕ
bits [] = []
bits (b ∷ bs) = byte_bits b ++ bits bs

-- A mask clears the low bits.
abbrev masks : ℕ → Bool
masks x =
    bit_and x 128 == x / 128 * 128
    && bit_and x 192 == x / 64 * 64
    && bit_and x 224 == x / 32 * 32
    && bit_and x 240 == x / 16 * 16
    && bit_and x 248 == x / 8 * 8
    && bit_and x 252 == x / 4 * 4
    && bit_and x 254 == x / 2 * 2

-- The bytes below a bound that pass no test.
exceptions : (ℕ → Bool) → ℕ → List ℕ
exceptions good zero = []
exceptions good (suc top) = let rest = exceptions good top in if good top then rest else top ∷ rest

exceptions_empty :
    (good : ℕ → Bool) (top : ℕ) → exceptions good top ≡ [] → (b : ℕ) → b < top → good b ≡ true
unfolding exceptions
exceptions_empty good zero none_left b small = absurd (omega arith)
exceptions_empty good (suc top) none_left b small = elim (Bool-cases (good top)) [
  | inl fine ↦
      let earlier = exceptions_empty good top (rw fine at none_left) b in
      ground (arith, earlier, fine)
  | inr bad ↦ absurd (impossible (exceptions good top) (rw bad at none_left))
]
  where
    impossible : (rest : List ℕ) → top ∷ rest ≡ [] → ⊥
    impossible rest e = cc

masks_table : exceptions masks 256 ≡ []
unfolding exceptions
masks_table = refl

masks_hold : (x : ℕ) → x < 256 → masks x ≡ true
masks_hold x h = exceptions_empty masks 256 masks_table x h

-- The remainder of a prefix is compared in its first bits.
same_masked_iff :
    (r x y : ℕ) (xs ys : List ℕ)
    → x < 256
    → y < 256
    → 0 < r
    → r < 8
    → (same_masked r (some x) (some y) ≡ true)
      ↔ (take r (byte_bits x ++ xs) ≡ take r (byte_bits y ++ ys))
unfolding same_masked prefix_mask
same_masked_iff zero x y xs ys hx hy p q = absurd (omega arith)
same_masked_iff (suc zero) x y xs ys hx hy p q = ground (arith, masks_hold x hx, masks_hold y hy)
same_masked_iff (suc (suc zero)) x y xs ys hx hy p q =
    ground (arith, masks_hold x hx, masks_hold y hy)
same_masked_iff (suc (suc (suc zero))) x y xs ys hx hy p q =
    ground (arith, masks_hold x hx, masks_hold y hy)
same_masked_iff (suc (suc (suc (suc zero)))) x y xs ys hx hy p q =
    ground (arith, masks_hold x hx, masks_hold y hy)
same_masked_iff (suc (suc (suc (suc (suc zero))))) x y xs ys hx hy p q =
    ground (arith, masks_hold x hx, masks_hold y hy)
same_masked_iff (suc (suc (suc (suc (suc (suc zero)))))) x y xs ys hx hy p q =
    ground (arith, masks_hold x hx, masks_hold y hy)
same_masked_iff (suc (suc (suc (suc (suc (suc (suc zero))))))) x y xs ys hx hy p q =
    ground (arith, masks_hold x hx, masks_hold y hy)
same_masked_iff (suc (suc (suc (suc (suc (suc (suc (suc r)))))))) x y xs ys hx hy p q =
    absurd (omega arith)

byte_bits_iff :
    (x y : ℕ) (m n : List ℕ)
    → x < 256
    → y < 256
    → (byte_bits x ++ m ≡ byte_bits y ++ n) ↔ ((x ≡ y) × (m ≡ n))
byte_bits_iff x y m n hx hy = ground arith

-- The test of `match_bytes`, with the whole bytes and the bits left over counted apart.
abbrev matches_from : ℕ → ℕ → Bytes → Bytes → Bool
matches_from q r a b = same_bytes q a b && (r == 0 || same_masked r (get_elem? a q) (get_elem? b q))

abbrev Agree : ℕ → Bytes → Bytes → Type 0
Agree n a b = take n (bits a) ≡ take n (bits b)

matches_from_step :
    (q r x y : ℕ) (a b : Bytes)
    → matches_from (suc q) r (x ∷ a) (y ∷ b) ≡ (x == y && matches_from q r a b)
unfolding same_bytes
matches_from_step q r x y a b = elim (Bool-cases (x == y)) [ inl e ↦ rw e | inr e ↦ rw e ]

matches_from_first :
    (r x y : ℕ) (a b : Bytes)
    → matches_from zero (suc r) (x ∷ a) (y ∷ b) ≡ same_masked (suc r) (some x) (some y)
unfolding same_bytes
matches_from_first r x y a b = let miss : (suc r == 0) ≡ false = ground arith in rw miss

matches_step :
    {P Q : Type 0} (x y : ℕ) (rest : Bool) {both : Bool}
    → both ≡ (x == y && rest)
    → Q ↔ ((x ≡ y) × P)
    → (rest ≡ true) ↔ P
    → (both ≡ true) ↔ Q
matches_step x y rest e f g = (
  (λ h. f.1 (ground arith, g.0 (ground arith))),
  (λ q. let (a, b) = f.0 q in e ∙ (let t : rest ≡ true = g.1 b in ground arith)),
)

matches_from_iff :
    (q r : ℕ) (a b : Bytes)
    → IsBytes a
    → IsBytes b
    → length a ≡ length b
    → q * 8 + r ≤ 8 * length a
    → r < 8
    → (matches_from q r a b ≡ true) ↔ Agree (q * 8 + r) a b
matches_from_iff zero zero a b ha hb l n k = ((λ _. refl), (λ _. unfold same_bytes in refl))
matches_from_iff zero (suc r) [] b ha hb l n k = absurd (omega arith)
matches_from_iff zero (suc r) (x ∷ a) [] ha hb l n k = absurd (omega arith)
matches_from_iff zero (suc r) (x ∷ a) (y ∷ b) ha hb l n k =
    let e : zero * 8 + suc r ≡ suc r = omega arith in
    rw (e, matches_from_first r x y a b)
      (same_masked_iff (suc r) x y (bits a) (bits b) ha.0 hb.0 (omega arith) k)
matches_from_iff (suc q) r [] b ha hb l n k = absurd (omega arith)
matches_from_iff (suc q) r (x ∷ a) [] ha hb l n k = absurd (omega arith)
matches_from_iff (suc q) r (x ∷ a) (y ∷ b) ha hb l n k =
    let ih = matches_from_iff q r a b ha.1 hb.1 (omega arith) (omega arith) k in
    let e : suc q * 8 + r ≡ suc (suc (suc (suc (suc (suc (suc (suc (q * 8 + r)))))))) =
      omega arith in
    rw e (step ih)
  where
    step :
        (matches_from q r a b ≡ true) ↔ Agree (q * 8 + r) a b
        → (matches_from (suc q) r (x ∷ a) (y ∷ b) ≡ true)
          ↔ (byte_bits x ++ take (q * 8 + r) (bits a) ≡ byte_bits y ++ take (q * 8 + r) (bits b))
    step ih =
        matches_step x y (matches_from q r a b) (matches_from_step q r x y a b)
          (byte_bits_iff x y (take (q * 8 + r) (bits a)) (take (q * 8 + r) (bits b)) ha.0 hb.0) ih

-- A rule of `prefix_len` bits matches exactly the addresses whose first `prefix_len` bits are
-- those of its network.
pub match_bytes_iff :
    (prefix_len : ℕ) (addr network : Bytes)
    → IsBytes addr
    → IsBytes network
    → length addr ≡ length network
    → prefix_len ≤ 8 * length addr
    → (match_bytes prefix_len addr network ≡ true)
      ↔ (take prefix_len (bits addr) ≡ take prefix_len (bits network))
unfolding match_bytes
match_bytes_iff prefix_len addr network ha hb l n =
    let e : prefix_len / 8 * 8 + prefix_len % 8 ≡ prefix_len = omega arith in
    rw e at (
      matches_from_iff (prefix_len / 8) (prefix_len % 8) addr network ha hb l (omega arith)
        (omega arith))
