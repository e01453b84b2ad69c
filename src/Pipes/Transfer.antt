-- ===== src/Pipes/Transfer.antt =====
-- One pipe of project_2/partB.c: what is in it, and what its reader has printed.
use cse4300_project.Prelude.{
  ℕ, ◌≡◌, refl, sym, ap, ◌∙◌, ◌⊎◌, inl, inr, Bool, true, false, [], ◌∷◌, ◌++◌, ◌==◌,
}
use mathlib.Core.List.{append-nil, append_assoc}
use cse4300_project.Menu.Words.{Word, newline, IsLine}
use cse4300_project.Pipes.{fgetc, byte, line_end, blocked, write_to_pipe}

-- No byte ends the line.
-- A pipe for `message`, by what its writer and its reader have done: what is in it and what has been
-- printed of it.
abbrev pub Wire : Bool → Bool → Word → Word → Word → Type 0
Wire false false message buffer heard = (buffer ≡ []) × (heard ≡ [])
Wire false true message buffer heard = ⊥
Wire true false message buffer heard =
    (rest : Word) × (buffer ≡ rest ++ newline ∷ []) × (heard ++ rest ≡ message) × IsLine rest
Wire true true message buffer heard = heard ≡ message

-- write_to_pipe on a pipe that nothing was written to.
pub Wire-sent :
    (heard : Bool) (message buffer text : Word)
    → IsLine message
    → Wire false heard message buffer text
    → (heard ≡ false) × Wire true heard message (write_to_pipe message buffer) text
Wire-sent false message buffer text line (empty, silent) =
    (refl, (message, rw empty refl, rw silent refl, line))
Wire-sent true message buffer text line v = absurd v

-- What fgetc finds in a pipe that is read.
abbrev pub Found : Bool → Bool → Word → Word → Word → Type 0
Found open_end sent message buffer text =
    ((b : ℕ) × (bs : Word) × (fgetc open_end buffer ≡ byte b bs)
      × Wire sent false message bs (text ++ b ∷ []))
    ⊎ (((bs : Word) × (fgetc open_end buffer ≡ line_end bs) × Wire sent true message bs text)
        ⊎ ((fgetc open_end buffer ≡ blocked) × (sent ≡ false)))

pub fgetc_byte :
    (o : Bool) (b : ℕ) (bs : Word) → (b == newline) ≡ false → fgetc o (b ∷ bs) ≡ byte b bs
fgetc_byte true b bs e = rw e refl
fgetc_byte false b bs e = rw e refl

pub fgetc_line_end : (o : Bool) (bs : Word) → fgetc o (newline ∷ bs) ≡ line_end bs
fgetc_line_end true bs = refl
fgetc_line_end false bs = refl

pub Wire-Found :
    (open_end sent : Bool) (message buffer text : Word)
    → (sent ≡ false → open_end ≡ true)
    → Wire sent false message buffer text
    → Found open_end sent message buffer text
Wire-Found open_end false message buffer text held (empty, silent) =
    inr (inr (rw (empty, held refl) refl, refl))
Wire-Found open_end true message buffer text held ([], full, whole, line) =
    inr (
      inl
        ([], ap (fgetc open_end) full ∙ fgetc_line_end open_end [], sym (append-nil text) ∙ whole))
Wire-Found open_end true message buffer text held (b ∷ bs, full, whole, (ordinary, line)) = inl (
  b,
  bs ++ newline ∷ [],
  ap (fgetc open_end) full ∙ fgetc_byte open_end b (bs ++ newline ∷ []) ordinary,
  (bs, refl, append_assoc text (b ∷ []) bs ∙ whole, line),
)
