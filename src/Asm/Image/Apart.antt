-- ===== src/Asm/Image/Apart.antt =====
-- The data section that `assemble` of tools/assembler/assemble.py places by itself.
use risc_forge.Base.{ℕ, ◌+◌, ◌%◌, ◌^◌, ◌≤◌, ◌≡◌, List, none, arith, ap}
use risc_forge.Asm.Error.{ok}
use risc_forge.Asm.Line.{Line, Syms}
use risc_forge.Asm.Layout.Sections.{Sections}
use risc_forge.Asm.Layout.Aligned.{align_up-ge}
use risc_forge.Asm.Layout.Pass.{pass1}
use risc_forge.Asm.Layout.SizePass.{section_sizes}
use risc_forge.Asm.Layout.Bases.{pass1-section_sizes}
use risc_forge.Asm.Image.{data_base_or}

-- For all lines and every text base that is a multiple of 2 ^ 12: if the size pass returns `sizes`
-- and `pass1`, with the data base that `assemble` takes when none is given, returns, then the text
-- section ends at or before the data base.
pub pass1-text_before_data :
    (lines : List Line) (text_base : ℕ) (sizes : Sections) (laid : List Line) (syms : Syms)
    (s : Sections)
    → text_base % 2 ^ 12 ≡ 0
    → section_sizes lines ≡ ok sizes
    → pass1 lines text_base (data_base_or none text_base sizes) ≡ ok (laid, syms, s)
    → s.text_at ≤ data_base_or none text_base sizes
pass1-text_before_data lines text_base sizes laid syms s aligned e h =
    at (
      pass1-section_sizes lines text_base (data_base_or none text_base sizes) laid syms s aligned h)
  where
    at :
        ((z : Sections) × (section_sizes lines ≡ ok z) × (s.text_at ≡ text_base + z.text_at))
        → s.text_at ≤ data_base_or none text_base sizes
    at (z, e', place) =
        let same : sizes ≡ z = cc in
        omega (arith, place, ap (λ (t : Sections). t.text_at) same, align_up-ge 2 sizes.text_at)
