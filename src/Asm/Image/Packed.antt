-- ===== src/Asm/Image/Packed.antt =====
-- The words that `assemble` of tools/assembler/assemble.py packs are its byte image: loaded at the
-- word of the least address, they give the bytes of the image back.
use risc_forge.Base.{
  ℕ, zero, suc, ◌+◌, ◌-◌, ◌*◌, ◌/◌, ◌^◌, ◌<◌, ◌≤◌, ◌≡◌, inl, inr, refl, ap, ◌∙◌, sym, List, [], ◌∷◌,
  arith, get_or, reads, Bool-cases, if_cases, if_both, subst, bit_and, ltb, if◌then◌else◌,
}
use mathlib.Core.List.{◌++◌}
use risc_forge.Base.Bits.{bit_and_mask}
use risc_forge.Asm.Layout.Sections.{align_up}
use risc_forge.Asm.Layout.Aligned.{align_up-ge, align_up-mod}
use risc_forge.Asm.Image.{Image, image_get, word_at, words_from, min_key, max_key, min, max, pack}
use risc_forge.Asm.Image.Words.{word_at-bytes}
use risc_forge.Asm.Image.Bytes.{le_bytes, words_bytes}
use risc_forge.Asm.Image.Extent.{IsByte}
use risc_forge.Asm.Image.Emission.{IsBytes}

-- Words in a memory of zeros, from an address on.
abbrev pub memory_of : ℕ → List ℕ → ℕ → ℕ
memory_of base words a = if ltb a base then 0 else get_or (words_bytes words) (a - base) 0

-- The address of the first word that is packed
abbrev pub base_of_image : Image → ℕ
base_of_image [] = 0
base_of_image ((a, b) ∷ image) = let least = min_key a image in least - bit_and least 3

pub image_get-IsByte : (image : Image) (a : ℕ) → IsBytes image → IsByte (image_get image a)
unfolding image_get
image_get-IsByte [] a h = omega arith
image_get-IsByte ((k, b) ∷ image) a (p, ps) = ground (arith, image_get-IsByte image a ps)

four :
    (a b c d a' b' c' d' : ℕ) (s : List ℕ)
    → a ≡ a'
    → b ≡ b'
    → c ≡ c'
    → d ≡ d'
    → (a ∷ b ∷ c ∷ d ∷ s) ≡ (a' ∷ b' ∷ c' ∷ d' ∷ s)
four a b c d a' b' c' d' s p q r t = cc

le_bytes-of :
    (a b c d : ℕ)
    → a < 2 ^ 8
    → b < 2 ^ 8
    → c < 2 ^ 8
    → d < 2 ^ 8
    → le_bytes (a + b * 2 ^ 8 + c * 2 ^ 16 + d * 2 ^ 24) ≡ a ∷ b ∷ c ∷ d ∷ []
le_bytes-of a b c d p q r s =
    four _ _ _ _ _ _ _ _ [] (omega arith) (omega arith) (omega arith) (omega arith)

le_bytes-word_at :
    (image : Image) (addr : ℕ)
    → IsBytes image
    → le_bytes (word_at image addr) ≡ reads (image_get image) 4 addr
le_bytes-word_at image addr h =
    let byte : (k : ℕ) → IsByte (image_get image k) = λ k. image_get-IsByte image k h in
    let whole =
      word_at-bytes image addr (image_get image addr) (image_get image (addr + 1))
        (image_get image (addr + 1 + 1)) (image_get image (addr + 1 + 1 + 1))
        (ap (image_get image) (omega arith)) refl (ap (image_get image) (omega arith))
        (ap (image_get image) (omega arith)) (byte addr) (byte (addr + 1)) (byte (addr + 1 + 1))
        (byte (addr + 1 + 1 + 1)) in
    ap le_bytes whole
    ∙ le_bytes-of (image_get image addr) (image_get image (addr + 1))
        (image_get image (addr + 1 + 1)) (image_get image (addr + 1 + 1 + 1)) (byte addr)
        (byte (addr + 1)) (byte (addr + 1 + 1)) (byte (addr + 1 + 1 + 1))

reads_four : (f : ℕ → ℕ) (n i : ℕ) → reads f (4 * suc n) i ≡ reads f 4 i ++ reads f (4 * n) (i + 4)
reads_four f n i =
    let split : 4 * suc n ≡ suc (suc (suc (suc (4 * n)))) = omega arith in
    ap (λ (m : ℕ). reads f m i) split
    ∙ ap (λ (j : ℕ). reads f 4 i ++ reads f (4 * n) j) (omega arith)

words_bytes-words_from :
    (n : ℕ) (image : Image) (addr : ℕ)
    → IsBytes image
    → words_bytes (words_from n image addr) ≡ reads (image_get image) (4 * n) addr
unfolding words_from
words_bytes-words_from zero image addr h = refl
words_bytes-words_from (suc n) image addr h =
    ap (λ (s : List ℕ). s ++ words_bytes (words_from n image (addr + 4)))
      (le_bytes-word_at image addr h)
    ∙ ap (λ (s : List ℕ). reads (image_get image) 4 addr ++ s)
        (words_bytes-words_from n image (addr + 4) h)
    ∙ sym (reads_four (image_get image) n addr)

get_or-reads : (f : ℕ → ℕ) (n i k : ℕ) → k < n → get_or (reads f n i) k 0 ≡ f (i + k)
get_or-reads f zero i k h = absurd (omega arith)
get_or-reads f (suc n) i zero h = ap f (omega arith)
get_or-reads f (suc n) i (suc k) h = get_or-reads f n (i + 1) k (omega arith) ∙ ap f (omega arith)

get_or-reads_outside : (f : ℕ → ℕ) (n i k : ℕ) → n ≤ k → get_or (reads f n i) k 0 ≡ 0
get_or-reads_outside f zero i k h = refl
get_or-reads_outside f (suc n) i zero h = absurd (omega arith)
get_or-reads_outside f (suc n) i (suc k) h = get_or-reads_outside f n (i + 1) k (omega arith)

min_key-le : (m : ℕ) (image : Image) → min_key m image ≤ m
min_key-le m [] = omega arith
min_key-le m ((k, b) ∷ image) = ground (arith, min_key-le (min m k) image)

max_key-ge : (m : ℕ) (image : Image) → m ≤ max_key m image
max_key-ge m [] = omega arith
max_key-ge m ((k, b) ∷ image) = ground (arith, max_key-ge (max m k) image)

get_or-reads_at :
    (f : ℕ → ℕ) (n i a : ℕ) → i ≤ a → (i + n ≤ a → f a ≡ 0) → get_or (reads f n i) (a - i) 0 ≡ f a
get_or-reads_at f n i a low high = elim (Bool-cases (ltb a (i + n))) [
  | inl e ↦ get_or-reads f n i (a - i) (ground arith) ∙ ap f (omega arith)
  | inr e ↦ get_or-reads_outside f n i (a - i) (ground arith) ∙ sym (high (ground arith))
]

image_get_below : (m a : ℕ) (image : Image) → a < min_key m image → image_get image a ≡ 0
unfolding image_get
image_get_below m a [] h = refl
image_get_below m a ((k, b) ∷ image) h =
    ground (arith, min_key-le (min m k) image, image_get_below (min m k) a image h)

image_get_above : (m a : ℕ) (image : Image) → max_key m image < a → image_get image a ≡ 0
unfolding image_get
image_get_above m a [] h = refl
image_get_above m a ((k, b) ∷ image) h =
    ground (arith, max_key-ge (max m k) image, image_get_above (max m k) a image h)

-- What `words_from` packs, where the image is zero around it.
memory_of-words_from :
    (n lo a : ℕ) (image : Image)
    → IsBytes image
    → (a < lo → image_get image a ≡ 0)
    → (lo + 4 * n ≤ a → image_get image a ≡ 0)
    → memory_of lo (words_from n image lo) a ≡ image_get image a
memory_of-words_from n lo a image h low high =
    if_cases (λ x. x ≡ image_get image a) (ltb a lo) (λ e. sym (low (ground arith)))
      λ e.
        ap (λ (s : List ℕ). get_or s (a - lo) 0) (words_bytes-words_from n image lo h)
        ∙ get_or-reads_at (image_get image) (4 * n) lo a (ground arith) high

min-same : (k : ℕ) → min k k ≡ k
min-same k = ground arith

max-same : (k : ℕ) → max k k ≡ k
max-same k = ground arith

-- For every image of bytes: in a memory of zeros with its packed words from the base on, each address
-- has the image's byte, or zero where the image has none.
pub pack-memory_of :
    (image : Image) (a : ℕ)
    → IsBytes image
    → memory_of (base_of_image image) (pack image) a ≡ image_get image a
unfolding pack image_get
pack-memory_of [] a h = if_both (λ x. x ≡ 0) (ltb a 0) refl refl
pack-memory_of ((k, b) ∷ image) a h =
    let least = min_key k image in
    let most = max_key k image in
    let lo = least - bit_and least 3 in
    let hi = align_up (most + 1) 4 in
    let n = (hi - lo) / 4 in
    memory_of-words_from n lo a ((k, b) ∷ image) h
      (λ p.
        image_get_below k a ((k, b) ∷ image)
          (subst (λ m. a < min_key m image) (sym (min-same k)) (omega arith)))
      (λ p. image_get_above k a ((k, b) ∷ image) (
        subst (λ m. max_key m image < a) (sym (max-same k))
          (omega (
            arith,
            bit_and_mask 2 least,
            align_up-mod 2 (most + 1),
            align_up-ge 2 (most + 1),
            min_key-le k image,
            max_key-ge k image,
          ))))
