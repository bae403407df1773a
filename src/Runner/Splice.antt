-- ===== src/Runner/Splice.antt =====
-- What a slice assignment puts into the memory, for `load_program` of tools/refmodel/rv32i_emu.py.
use risc_forge.Base.{
  ℕ, zero, suc, ◌+◌, ◌≤◌, ◌<◌, ◌≡◌, ◌⊎◌, refl, ap, ◌∙◌, List, [], ◌∷◌, arith, length, get_or, set,
  All, All-set, length-set, get_or-set_self, get_or-set_ne,
}
use risc_forge.Emu.Memory.{splice}

pub length-splice :
    (mem : List ℕ) (i : ℕ) (bytes : List ℕ) → length (splice mem i bytes) ≡ length mem
unfolding splice
length-splice mem i [] = refl
length-splice mem i (b ∷ bytes) = length-splice (set mem i b) (i + 1) bytes ∙ length-set mem i b

pub All-splice :
    (P : ℕ → Type 0) (mem : List ℕ) (i : ℕ) (bytes : List ℕ)
    → All P mem
    → All P bytes
    → All P (splice mem i bytes)
unfolding splice
All-splice P mem i [] h p = h
All-splice P mem i (b ∷ bytes) h (p, ps) =
    All-splice P (set mem i b) (i + 1) bytes (All-set P mem i b h p) ps

-- Bytes before and after the slice are left alone.
pub get_or-splice_outside :
    (mem : List ℕ) (i : ℕ) (bytes : List ℕ) (j : ℕ)
    → (j < i) ⊎ (i + length bytes ≤ j)
    → get_or (splice mem i bytes) j 0 ≡ get_or mem j 0
unfolding splice
get_or-splice_outside mem i [] j h = refl
get_or-splice_outside mem i (b ∷ bytes) j h =
    get_or-splice_outside (set mem i b) (i + 1) bytes j (omega arith)
    ∙ get_or-set_ne mem i j b 0 (omega arith)

get_or_at : (mem : List ℕ) (i j : ℕ) → i ≡ j → get_or mem i 0 ≡ get_or mem j 0
get_or_at mem i j e = ap (λ (t : ℕ). get_or mem t 0) e

-- Inside it, the bytes that were assigned are read.
pub get_or-splice_inside :
    (mem : List ℕ) (i : ℕ) (bytes : List ℕ) (k : ℕ)
    → i + length bytes ≤ length mem
    → k < length bytes
    → get_or (splice mem i bytes) (i + k) 0 ≡ get_or bytes k 0
unfolding splice
get_or-splice_inside mem i [] k fits h = absurd (omega arith)
get_or-splice_inside mem i (b ∷ bytes) zero fits h =
    get_or_at (splice (set mem i b) (i + 1) bytes) (i + 0) i (omega arith)
    ∙ get_or-splice_outside (set mem i b) (i + 1) bytes i (omega arith)
    ∙ get_or-set_self mem i b 0 (omega arith)
get_or-splice_inside mem i (b ∷ bytes) (suc k) fits h =
    get_or_at (splice (set mem i b) (i + 1) bytes) (i + suc k) (i + 1 + k) (omega arith)
    ∙ get_or-splice_inside (set mem i b) (i + 1) bytes k (omega (arith, length-set mem i b))
        (omega arith)
