-- ===== src/Asm/Image/Emission.antt =====
-- Every line of a program that tools/assembler/assemble.py has laid out keeps its bytes in the image,
-- at its address, whatever is emitted after it.
use risc_forge.Base.{
  ℕ, ◌+◌, ◌≤◌, ◌≡◌, ◌⊎◌, inl, inr, refl, sym, List, [], ◌∷◌, Option, none, some, arith, length, All,
  reads, subst,
}
use risc_forge.Base.Text.{Text}
use risc_forge.Asm.Error.{Result, ok, fail, ◌>>=◌}
use risc_forge.Asm.Line.{Line, Syms, Section}
use risc_forge.Asm.Encode.{encode_opt, encode_line}
use risc_forge.Asm.Layout.Sections.{Sections}
use risc_forge.Asm.Layout.Places.{
  HasRoom, TakesPart, Between, Inside, Grows, reserved, reserved_opt,
}
use risc_forge.Asm.Layout.Chain.{Chain}
use risc_forge.Asm.Image.{Image, image_get, emit_out, emit_opt, emit_lines}
use risc_forge.Asm.Image.Bytes.{
  line_bytes, put, emit_out-put, HasBytes, put-HasBytes, put-HasBytes_apart,
}
use risc_forge.Asm.Image.Extent.{FitsIn, encode_op-FitsIn, IsByte, line_bytes-IsByte}

-- The bytes of a line: those of the words that `encode_line` gives, and none without an operation.
abbrev pub Encodes : Option Text → Line → Syms → List ℕ → Type 0
Encodes none ln syms bytes = bytes ≡ []
Encodes (some op) ln syms bytes =
    (out : List ℕ) × (encode_line ln syms ≡ ok out) × (bytes ≡ line_bytes op out)

-- A memory has the line's bytes from the line's address on.
abbrev pub HasLine : Syms → (ℕ → ℕ) → Line → Type 0
HasLine syms memory ln =
    (bytes : List ℕ) × Encodes ln.op ln syms bytes × (reads memory (length bytes) ln.pc ≡ bytes)

-- The line has no address from `low` up to `high`.
abbrev pub Avoids : ℕ → ℕ → Line → Type 0
Avoids low high ln = (ln.pc + ln.size ≤ low) ⊎ (high ≤ ln.pc)

abbrev Separate : List Line → Type 0
Separate [] = Unit
Separate (ln ∷ lines) = All (Avoids ln.pc (ln.pc + ln.size)) lines × Separate lines

-- One line puts its bytes into the image.
abbrev Puts : Option Text → Line → Syms → Image → Result Image → Type 0
Puts op ln syms image (fail e) = Unit
Puts op ln syms image (ok image') =
    (bytes : List ℕ) × Encodes op ln syms bytes
    × (image' ≡ put image ln.pc bytes)
    × (length bytes ≤ ln.size)
    × All IsByte bytes

out-Puts :
    (op : Text) (ln : Line) (syms : Syms) (image : Image) (r : Result (List ℕ))
    → encode_line ln syms ≡ r
    → reserved op ln.args ≤ ln.size
    → FitsIn (reserved op ln.args) op r
    → Puts (some op) ln syms image (r >>= λ out. ok (emit_out op image ln.pc out))
out-Puts op ln syms image (fail e) same room fits = tt
out-Puts op ln syms image (ok out) same room fits = (
  line_bytes op out,
  (out, same, refl),
  emit_out-put op image ln.pc out,
  omega arith,
  line_bytes-IsByte op out,
)

opt-Puts :
    (op : Option Text) (ln : Line) (syms : Syms) (image : Image)
    → ln.op ≡ op
    → reserved_opt op ln.args ≤ ln.size
    → Puts op ln syms image (emit_opt op ln syms image)
unfolding encode_line
opt-Puts none ln syms image e room = ([], refl, refl, omega arith, tt)
opt-Puts (some op) ln syms image e room =
    out-Puts op ln syms image (encode_line ln syms) refl room (
      subst (λ o. FitsIn (reserved op ln.args) op (encode_opt o ln syms)) (sym e)
        (encode_op-FitsIn op ln syms))

-- What the lines leave as it was.
abbrev Keeps : List Line → Image → Image → Type 0
Keeps lines image image' =
    (addr : ℕ) (bytes : List ℕ)
    → All (Avoids addr (addr + length bytes)) lines
    → HasBytes image addr bytes
    → HasBytes image' addr bytes

abbrev pub IsBytes : Image → Type 0
IsBytes image = All (λ (p : ℕ × ℕ). IsByte p.1) image

pub put-IsBytes :
    (image : Image) (addr : ℕ) (bytes : List ℕ)
    → IsBytes image
    → All IsByte bytes
    → IsBytes (put image addr bytes)
put-IsBytes image addr [] h p = h
put-IsBytes image addr (b ∷ bytes) h (p, ps) =
    put-IsBytes ((addr, b) ∷ image) (addr + 1) bytes (p, h) ps

abbrev Emitted : List Line → Syms → Image → Result Image → Type 0
Emitted lines syms image (fail e) = Unit
Emitted lines syms image (ok image') =
    All (HasLine syms (image_get image')) lines × Keeps lines image image' × IsBytes image'

Avoids-within :
    (low high high' : ℕ) (lines : List Line)
    → high' ≤ high
    → All (Avoids low high) lines
    → All (Avoids low high') lines
Avoids-within low high high' [] h all = tt
Avoids-within low high high' (ln ∷ lines) h (p, ps) =
    (omega arith, Avoids-within low high high' lines h ps)

cons-Emitted :
    (ln : Line) (lines : List Line) (syms : Syms) (image : Image) (r : Result Image)
    (f : Image → Result Image)
    → All (Avoids ln.pc (ln.pc + ln.size)) lines
    → IsBytes image
    → Puts ln.op ln syms image r
    → ((image' : Image) → IsBytes image' → Emitted lines syms image' (f image'))
    → Emitted (ln ∷ lines) syms image (r >>= f)
cons-Emitted ln lines syms image (fail e) f avoid old puts rest = tt
cons-Emitted ln lines syms image (ok image') f avoid old (bytes, enc, same, fits, small) rest =
    go (f image') (rest image' (subst IsBytes (sym same) (put-IsBytes image ln.pc bytes old small)))
  where
    go : (r : Result Image) → Emitted lines syms image' r → Emitted (ln ∷ lines) syms image r
    go (fail e) h = tt
    go (ok final) (all, keeps, small') =
        let first : HasBytes image' ln.pc bytes =
          subst (λ i. HasBytes i ln.pc bytes) (sym same) (put-HasBytes image ln.pc bytes) in
        let kept =
          keeps ln.pc bytes
            (Avoids-within ln.pc (ln.pc + ln.size) (ln.pc + length bytes) lines (omega arith) avoid)
            first in
        (
          ((bytes, enc, kept), all),
          λ addr others (p, ps) h. keeps addr others ps (
              subst (λ i. HasBytes i addr others) (sym same)
                (put-HasBytes_apart image addr others ln.pc bytes (omega arith) h)),
          small',
        )

emit_lines-Emitted :
    (lines : List Line) (syms : Syms) (image : Image)
    → All HasRoom lines
    → Separate lines
    → IsBytes image
    → Emitted lines syms image (emit_lines lines syms image)
unfolding emit_lines
emit_lines-Emitted [] syms image room apart small = (tt, λ addr bytes p h. h, small)
emit_lines-Emitted (ln ∷ lines) syms image (room, rooms) (apart, aparts) small =
    cons-Emitted ln lines syms image (emit_opt ln.op ln syms image) _ apart small
      (opt-Puts ln.op ln syms image refl room)
      λ image' small'. emit_lines-Emitted lines syms image' rooms aparts small'

Inside-apart :
    (c c' : Section) (t t' u d d' v low high low' high' : ℕ)
    → t ≤ t'
    → t' ≤ u
    → d ≤ d'
    → u ≤ d
    → Inside c t t' d d' low high
    → Inside c' t' u d' v low' high'
    → (high' ≤ low) ⊎ (high ≤ low')
Inside-apart Section.text Section.text t t' u d d' v low high low' high' p p' q w h k =
    inr (omega arith)
Inside-apart Section.text Section.data_section t t' u d d' v low high low' high' p p' q w h k =
    inr (omega arith)
Inside-apart Section.data_section Section.text t t' u d d' v low high low' high' p p' q w h k =
    inl (omega arith)
Inside-apart Section.data_section Section.data_section t t' u d d' v low high low' high' p p' q w h
      k =
    inr (omega arith)

Avoids-part :
    (s s' e : Sections) (ln : Line) (lines : List Line)
    → TakesPart s s' ln
    → Grows s' e
    → e.text_at ≤ s.data_at
    → All (Between s' e) lines
    → All (Avoids ln.pc (ln.pc + ln.size)) lines
Avoids-part s s' e ln [] part grows before all = tt
Avoids-part s s' e ln (l ∷ lines) part grows before (h, rest) = (
  Inside-apart ln.section l.section s.text_at s'.text_at e.text_at s.data_at s'.data_at e.data_at
      ln.pc (ln.pc + ln.size) l.pc (l.pc + l.size) part.0.0 grows.0 part.0.1 before part.1 h,
  Avoids-part s s' e ln lines part grows before rest,
)

Chain-Separate :
    (s e : Sections) (lines : List Line)
    → e.text_at ≤ s.data_at
    → Chain s lines e
    → All HasRoom lines × Separate lines
Chain-Separate s e [] before h = (tt, tt)
Chain-Separate s e (ln ∷ lines) before (s', part, room, grows, all, chain) =
    let rest = Chain-Separate s' e lines (omega arith) chain in
    ((room, rest.0), (Avoids-part s s' e ln lines part grows before all, rest.1))

-- For lines that pass 1 has laid out with the text section before the data section: if they are all
-- emitted, the image has the bytes of each.
pub Chain-HasLine :
    (s e : Sections) (lines : List Line) (syms : Syms) (image : Image)
    → e.text_at ≤ s.data_at
    → Chain s lines e
    → emit_lines lines syms [] ≡ ok image
    → All (HasLine syms (image_get image)) lines × IsBytes image
Chain-HasLine s e lines syms image before chain h =
    let ready = Chain-Separate s e lines before chain in
    let emitted =
      subst (Emitted lines syms []) h (emit_lines-Emitted lines syms [] ready.0 ready.1 tt) in
    (emitted.0, emitted.2)
