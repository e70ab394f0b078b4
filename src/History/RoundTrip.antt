-- ===== src/History/RoundTrip.antt =====
-- What `reflow` of src/terminal/history.rs keeps of the text: lines split into rows.
use stitch_pty.Prelude.{
  ℕ, zero, suc, ◌+◌, ◌-◌, ◌<◌, ◌≡◌, refl, sym, ap, ◌∙◌, Bool, true, false, ◌||◌, not, ◌==◌, ltb,
  leb, if◌then◌else◌, Option, [], ◌∷◌, ◌++◌, length, replicate, arith, Bool-cases, inl, inr,
  append-nil, append_assoc, All,
}
use stitch_pty.Screen.State.{Char, Row, Rows, blank, is_blank}
use stitch_pty.History.{is_nil, trim_trailing_blanks}
use stitch_pty.History.Flatten.{width_of, flatten_cells}
use stitch_pty.History.Split.{
  flush, Filling, flush_row, make_room, place, flush_full, put_cell, put_cells, nothing_written,
  finish, split_line,
}
use stitch_pty.History.Widths.{IsFilled, put_cell-IsFilled}

-- The cells of rows, one after the other.
abbrev pub joined : Rows → Row
joined [] = []
joined (row ∷ rows) = row ++ joined rows

joined-append : (rows : Rows) (row : Row) → joined (rows ++ row ∷ []) ≡ joined rows ++ row
joined-append [] row = append-nil row
joined-append (r ∷ rows) row =
    ap (λ xs. r ++ xs) (joined-append rows row) ∙ sym (append_assoc r (joined rows) row)

replicate-none {ℓ} : {A : Type ℓ} (n : ℕ) (a : A) → n ≡ 0 → replicate n a ≡ []
replicate-none zero a e = refl
replicate-none (suc n) a e = absurd (omega arith)

flush-full : (columns : ℕ) (row : Row) → length row ≡ columns → flush columns row ≡ row
unfolding flush
flush-full columns row e =
    ap (λ xs. row ++ xs) (replicate-none (columns - length row) blank (omega arith))
    ∙ append-nil row

-- All that was written.
abbrev content : Filling → Row
content f = joined f.rows ++ f.row

flush_full-content :
    (columns : ℕ) (rows : Rows) (row : Row)
    → content (flush_full columns (record { rows = rows; row = row })) ≡ joined rows ++ row
unfolding flush_full flush_row
flush_full-content columns rows row = elim (Bool-cases (length row == columns)) [
  | inl full ↦ rw full (
      append-nil _
      ∙ joined-append rows (flush columns row)
      ∙ ap (λ xs. joined rows ++ xs) (flush-full columns row (ground arith)))
  | inr less ↦ rw less refl
]

module _ (char_width : ℕ → Option ℕ) where
  -- One column wide, or none.
  abbrev pub IsNarrow : Char → Type 0
  IsNarrow c = width_of char_width c < 2

  module _ (columns : ℕ) (positive : 0 < columns) where
    put_cell-content :
        (f : Filling) (cell : Char)
        → length f.row < columns
        → IsNarrow cell
        → content (put_cell char_width columns f cell) ≡ content f ++ cell ∷ []
    unfolding put_cell make_room place
    put_cell-content f cell h n =
        let narrow : leb 2 (width_of char_width cell) ≡ false = ground arith in
        let room : ltb columns (length f.row + 1) ≡ false = ground arith in
        rw narrow (
          rw room (
            flush_full-content columns f.rows (f.row ++ cell ∷ [])
            ∙ sym (append_assoc (joined f.rows) f.row (cell ∷ []))))

    put_cells-content :
        (cells : Row) (f : Filling)
        → IsFilled positive f
        → All IsNarrow cells
        → content (put_cells char_width columns f cells) ≡ content f ++ cells
    unfolding put_cells
    put_cells-content [] f i n = sym (append-nil (content f))
    put_cells-content (cell ∷ cells) f i n =
        put_cells-content cells (put_cell char_width columns f cell)
          (put_cell-IsFilled positive char_width cell i) n.1
        ∙ ap (λ xs. xs ++ cells) (put_cell-content f cell i.room n.0)
        ∙ append_assoc (content f) (cell ∷ []) cells

    -- What `finish` adds is blank.
    finish-content :
        (f : Filling)
        → (k : ℕ) × (joined (finish char_width columns f) ≡ content f ++ replicate k blank)
    unfolding finish flush_row flush
    finish-content f =
        elim (Bool-cases (not (is_nil f.row) || nothing_written char_width columns f.rows)) [
          | inl more ↦
              let pad = replicate (columns - length f.row) blank in
              (
                columns - length f.row,
                rw more (
                    joined-append f.rows (f.row ++ pad)
                    ∙ sym (append_assoc (joined f.rows) f.row pad)),
              )
          | inr done ↦ (
            0,
            rw done (
                sym (
                  append-nil (content f)
                  ∙ ap (λ xs. joined f.rows ++ xs) (nil f.row (ground arith))
                  ∙ append-nil (joined f.rows))),
          )
        ]
      where
        nil : (row : Row) → is_nil row ≡ true → row ≡ []
        nil [] e = refl
        nil (c ∷ row) e = cc

    finish-pos : (f : Filling) → 0 < length (finish char_width columns f)
    unfolding finish flush_row
    finish-pos f = some_row f.rows (not (is_nil f.row))
      where
        some_row :
            (rows : Rows) (b : Bool)
            → 0
              < length (
                  if b || nothing_written char_width columns rows
                  then rows ++ flush columns f.row ∷ []
                  else rows)
        some_row [] true = omega arith
        some_row [] false = omega arith
        some_row (row ∷ rows) true = omega arith
        some_row (row ∷ rows) false = omega arith

    pub split_line-joined :
        (cells : Row)
        → All IsNarrow cells
        → (k : ℕ) × (joined (split_line char_width columns cells) ≡ cells ++ replicate k blank)
    unfolding split_line
    split_line-joined cells n =
        let start : Filling = record { rows = []; row = [] } in
        let i : IsFilled positive start = record { wide = tt; room = positive } in
        let done = finish-content (put_cells char_width columns start cells) in
        (
          done.0,
          done.1 ∙ ap (λ xs. xs ++ replicate done.0 blank) (put_cells-content cells start i n),
        )

    pub split_line-pos : (cells : Row) → 0 < length (split_line char_width columns cells)
    unfolding split_line
    split_line-pos cells =
        finish-pos (put_cells char_width columns (record { rows = []; row = [] }) cells)

  -- The cells of narrow rows are taken as they are.
  pub flatten_cells-narrow :
      (cur row : Row)
      → All IsNarrow row
      → flatten_cells char_width false cur row ≡ (false, cur ++ row)
  unfolding flatten_cells
  flatten_cells-narrow cur [] n = ap (λ xs. (false, xs)) (sym (append-nil cur))
  flatten_cells-narrow cur (cell ∷ row) n =
      let narrow : leb 2 (width_of char_width cell) ≡ false = ground (arith, n.0) in
      rw narrow (
        flatten_cells-narrow (cur ++ cell ∷ []) row n.1
        ∙ ap (λ xs. (false, xs)) (append_assoc cur (cell ∷ []) row))

blanks-trim : (k : ℕ) → trim_trailing_blanks (replicate k blank) ≡ []
unfolding trim_trailing_blanks is_blank
blanks-trim zero = refl
blanks-trim (suc k) = rw (blanks-trim k) refl

-- Blanks at the end are trimmed away.
pub trim-append :
    (cells : Row) (k : ℕ)
    → trim_trailing_blanks (cells ++ replicate k blank) ≡ trim_trailing_blanks cells
unfolding trim_trailing_blanks
trim-append [] k = blanks-trim k
trim-append (c ∷ cells) k = rw (trim-append cells k) refl
