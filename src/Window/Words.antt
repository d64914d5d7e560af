-- ===== src/Window/Words.antt =====
-- The words of a shifted bitmap.
use tun_go.Base.{
  ℕ, zero, suc, ◌+◌, ◌-◌, ◌^◌, ◌≤◌, ◌<◌, ◌≡◌, refl, ap, ◌∙◌, List, [], ◌∷◌, ◌++◌, All, ltb, leb,
  ◌==◌, ◌&&◌, Bool-cases, inl, inr, ap₂, dec_le, if◌then◌else◌, length, get_or, set, take,
  length-set, length-append, length-take, bit_or, arith, get_or-set_self, get_or-set_ne,
}
use tun_go.Base.Bits.{bit_or-lt}
use native.Mathlib.Nat.{div-le_self}
use tun_go.Window.{zero_words, shift_words, move_words, shl64, shr64}

-- Sixteen words of 64 bits.
abbrev pub Fits : ℕ → Type 0
Fits w = w < 2 ^ 64

pub record IsBitmap (b : List ℕ) : Type 0 where
  pub words : length b ≡ 16
  pub fit : All Fits b

pub All-get_or : (b : List ℕ) (i d : ℕ) → Fits d → All Fits b → Fits (get_or b i d)
All-get_or [] i d h a = h
All-get_or (w ∷ b) zero d h a = a.0
All-get_or (w ∷ b) (suc i) d h a = All-get_or b i d h a.1

pub All-set : (b : List ℕ) (i v : ℕ) → Fits v → All Fits b → All Fits (set b i v)
All-set [] i v h a = tt
All-set (w ∷ b) zero v h a = (h, a.1)
All-set (w ∷ b) (suc i) v h a = (a.0, All-set b i v h a.1)

All-append : (b c : List ℕ) → All Fits b → All Fits c → All Fits (b ++ c)
All-append [] c p q = q
All-append (w ∷ b) c p q = (p.0, All-append b c p.1 q)

All-take : (n : ℕ) (b : List ℕ) → All Fits b → All Fits (take n b)
All-take zero b p = tt
All-take (suc n) [] p = tt
All-take (suc n) (w ∷ b) p = (p.0, All-take n b p.1)

pub set-IsBitmap : (b : List ℕ) (i v : ℕ) → Fits v → IsBitmap b → IsBitmap (set b i v)
set-IsBitmap b i v h p = record { words = length-set b i v ∙ p.words; fit = All-set b i v h p.fit }

pub word-Fits : (b : List ℕ) (i : ℕ) → IsBitmap b → Fits (get_or b i 0)
word-Fits b i p = All-get_or b i 0 (omega arith) p.fit

-- A cleared word reads 0, in the array or out of it.
get_or-set_zero :
    (b : List ℕ) (i j : ℕ) → get_or (set b i 0) j 0 ≡ (if i == j then 0 else get_or b j 0)
get_or-set_zero [] i j = ground arith
get_or-set_zero (w ∷ b) zero zero = refl
get_or-set_zero (w ∷ b) zero (suc j) = ground arith
get_or-set_zero (w ∷ b) (suc i) zero = ground arith
get_or-set_zero (w ∷ b) (suc i) (suc j) = ground (arith, get_or-set_zero b i j)

get_or-take-append :
    (n j : ℕ) (b c : List ℕ)
    → n ≤ length b
    → n ≤ j
    → get_or (take n b ++ c) j 0 ≡ get_or c (j - n) 0
get_or-take-append zero j b c h p = ap (λ k. get_or c k 0) (omega arith)
get_or-take-append (suc n) j [] c h p = absurd (omega arith)
get_or-take-append (suc n) zero (w ∷ b) c h p = absurd (omega arith)
get_or-take-append (suc n) (suc j) (w ∷ b) c h p =
    get_or-take-append n j b c (omega arith) (omega arith) ∙ ap (λ k. get_or c k 0) (omega arith)

get_or-take : (n j : ℕ) (b : List ℕ) → j < n → get_or (take n b) j 0 ≡ get_or b j 0
get_or-take zero j b h = absurd (omega arith)
get_or-take (suc n) j [] h = refl
get_or-take (suc n) zero (w ∷ b) h = refl
get_or-take (suc n) (suc j) (w ∷ b) h = get_or-take n j b (omega arith)

zero_words_lem :
    (i k j : ℕ) (b : List ℕ)
    → get_or (zero_words i k b) j 0 ≡ (if leb i j && ltb j (i + k) then 0 else get_or b j 0)
unfolding zero_words
zero_words_lem i zero j b = ground arith
zero_words_lem i (suc k) j b =
    ground (arith, zero_words_lem (i + 1) k j (set b i 0), get_or-set_zero b i j)

zero_words-IsBitmap : (i k : ℕ) (b : List ℕ) → IsBitmap b → IsBitmap (zero_words i k b)
unfolding zero_words
zero_words-IsBitmap i zero b p = p
zero_words-IsBitmap i (suc k) b p =
    zero_words-IsBitmap (i + 1) k (set b i 0) (set-IsBitmap b i 0 (omega arith) p)

pub move_words-IsBitmap : (n : ℕ) (b : List ℕ) → n < 16 → IsBitmap b → IsBitmap (move_words n b)
unfolding move_words
move_words-IsBitmap n b h p = elim (Bool-cases (ltb 0 n)) [
  | inl e ↦ rw e (
      zero_words-IsBitmap 0 n moved (record {
        words = omega (
          arith,
          length-append (take n b) (take (16 - n) b),
          length-take n b,
          length-take (16 - n) b,
          p.words,
        );
        fit =
            All-append (take n b) (take (16 - n) b) (All-take n b p.fit)
              (All-take (16 - n) b p.fit);
      }))
  | inr e ↦ rw e p
]
  where
    moved : List ℕ
    moved = take n b ++ take (16 - n) b

-- Moving by whole words.
pub move_words_lem :
    (n j : ℕ) (b : List ℕ)
    → n < 16
    → j < 16
    → IsBitmap b
    → get_or (move_words n b) j 0 ≡ (if ltb j n then 0 else get_or b (j - n) 0)
unfolding move_words
move_words_lem n j b h hj p = elim (Bool-cases (ltb 0 n)) [
  | inl e ↦ rw e (
      ground (
        arith,
        zero_words_lem 0 n j (take n b ++ take (16 - n) b),
        get_or-take-append n j b (take (16 - n) b) (omega (arith, p.words)),
        get_or-take (16 - n) (j - n) b,
      ))
  | inr e ↦ rw e (ground arith)
]

pub shift_words-IsBitmap : (s i : ℕ) (b : List ℕ) → IsBitmap b → IsBitmap (shift_words s i b)
unfolding shift_words
shift_words-IsBitmap s zero b p = set-IsBitmap b 0 _ (omega arith) p
shift_words-IsBitmap s (suc i) b p = shift_words-IsBitmap s i _ (
    set-IsBitmap b (suc i) _
      (bit_or-lt 64 _ _ (omega arith)
        (omega (arith, div-le_self (get_or b i 0) (2 ^ (64 - s)), word-Fits b i p)))
      p)

shift_words_above : (s i j : ℕ) (b : List ℕ) → i < j → get_or (shift_words s i b) j 0 ≡ get_or b j 0
unfolding shift_words
shift_words_above s zero j b h = get_or-set_ne b 0 j _ 0 (omega arith)
shift_words_above s (suc i) j b h =
    shift_words_above s i j _ (omega arith) ∙ get_or-set_ne b (suc i) j _ 0 (omega arith)

-- A word after the bit shift: its own bits moved up, and the top bits of the word below.
abbrev pub shifted_word : ℕ → List ℕ → ℕ → ℕ
shifted_word s b zero = shl64 (get_or b 0 0) s
shifted_word s b (suc j) = bit_or (shl64 (get_or b (suc j) 0) s) (shr64 (get_or b j 0) (64 - s))

shifted_word-set :
    (s i j v : ℕ) (b : List ℕ) → j < i → shifted_word s (set b i v) j ≡ shifted_word s b j
shifted_word-set s i zero v b h = ap (λ w. shl64 w s) (get_or-set_ne b i 0 v 0 (omega arith))
shifted_word-set s i (suc j) v b h =
    ap₂ (λ w u. bit_or (shl64 w s) (shr64 u (64 - s))) (get_or-set_ne b i (suc j) v 0 (omega arith))
      (get_or-set_ne b i j v 0 (omega arith))

pub shift_words_lem :
    (s i j : ℕ) (b : List ℕ)
    → i < length b
    → j ≤ i
    → get_or (shift_words s i b) j 0 ≡ shifted_word s b j
unfolding shift_words
shift_words_lem s zero zero b h p = get_or-set_self b 0 _ 0 h
shift_words_lem s zero (suc j) b h p = absurd (omega arith)
shift_words_lem s (suc i) j b h p = elim (dec_le j i) [
  | yes q ↦
      shift_words_lem s i j _ (omega (arith, length-set b (suc i))) q
      ∙ shifted_word-set s (suc i) j _ b (omega arith)
  | no q ↦
      let e : j ≡ suc i = omega arith in
      rw e (shift_words_above s i (suc i) _ (omega arith) ∙ get_or-set_self b (suc i) _ 0 h)
]
