-- ===== src/Prf/Screen.antt =====
-- The screen and the cursor of kernel/prf.c.
use unix_v.Common.{
  ℕ, zero, suc, ◌+◌, ◌-◌, ◌*◌, ◌/◌, ◌<◌, ◌≤◌, ◌≡◌, refl, if_false, ◌∙◌, ap, sym, subst, arith,
  false, ◌&&◌, ◌||◌, not, ◌==◌, if◌then◌else◌, leb, ltb, Bool-cases, inl, inr, ◌⊎◌,
}
use unix_v.Prf.{
  Console, white, write_cell, move_up, blank, vga_scroll, scroll_rows, put_at_cursor, next_row,
  vga_putchar,
}

-- the cursor is on the screen
unfoldable pub IsOnScreen : Console → Type 0
IsOnScreen s = (s.row < 25) × (s.col < 80)

move_up-at :
    (n i : ℕ) (f : ℕ → ℕ) (j : ℕ)
    → move_up n i f j ≡ (if leb i j && ltb j (i + n) then f (j + 80) else f j)
unfolding move_up
move_up-at zero i f j = ground arith
move_up-at (suc n) i f j = ground (arith, move_up-at n (suc i) (write_cell i (f (i + 80)) f) j)

blank-at :
    (n i : ℕ) (f : ℕ → ℕ) (j : ℕ)
    → blank n i f j ≡ (if leb i j && ltb j (i + n) then white 32 else f j)
unfolding blank
blank-at zero i f j = ground arith
blank-at (suc n) i f j = ground (arith, blank-at n (suc i) (write_cell i (white 32) f) j)

-- the screen one row further up
unfoldable pub scrolled : (ℕ → ℕ) → ℕ → ℕ
scrolled f j = if ltb j 1920 then f (j + 80) else if ltb j 2000 then white 32 else f j

vga_scroll-at : (s : Console) (j : ℕ) → (vga_scroll s).cell j ≡ scrolled s.cell j
unfolding vga_scroll scrolled
vga_scroll-at s j =
    ground (arith, blank-at 80 1920 (move_up 1920 0 s.cell) j, move_up-at 1920 0 s.cell j)

-- the place after the character, counted along the rows
unfoldable pub place_after : ℕ → (row col : ℕ) → ℕ
place_after c row col =
    if c == 10
    then row * 80 + 80
    else if c == 13
    then row * 80
    else if c == 9
    then row * 80 + (col + 8) / 8 * 8
    else row * 80 + col + 1

-- the cells after the character, which is written at the place unless it only moves the cursor
unfoldable pub written : ℕ → (place : ℕ) → (ℕ → ℕ) → ℕ → ℕ
written c place f j = if (c == 10 || c == 13 || c == 9) || not (place == j) then f j else white c

-- The screen after the character: its cursor is at the place after it, and where this is beyond the
-- last row, all has moved up by a row.
unfoldable pub Shows : ℕ → Console → Console → Type 0
Shows c s s' =
    let place = place_after c s.row s.col in
    let cells = written c (s.row * 80 + s.col) s.cell in
    (s'.row < 25)
    × (s'.col < 80)
    × ((place < 2000) × (s'.row * 80 + s'.col ≡ place) × ((j : ℕ) → s'.cell j ≡ cells j)
        ⊎ (2000 ≤ place)
          × (s'.row * 80 + s'.col + 80 ≡ place)
          × ((j : ℕ) → s'.cell j ≡ scrolled cells j))

-- the cursor after the character, before a row that is full ends
put_at_cursor-place :
    (c : ℕ) (s : Console)
    → IsOnScreen s
    → (let t = put_at_cursor c s in
        (t.row * 80 + t.col ≡ place_after c s.row s.col)
        × (t.row ≤ 25)
        × (t.row ≡ 25 → t.col ≡ 0)
        × (t.col ≤ 80)
        × ((j : ℕ) → t.cell j ≡ written c (s.row * 80 + s.col) s.cell j))
unfolding put_at_cursor place_after written IsOnScreen
put_at_cursor-place c s (r, k) = (
  ground (arith, r, k),
  ground (arith, r, k),
  ground (arith, r, k),
  ground (arith, r, k),
  λ j. ground arith,
)

next_row-place :
    (t : Console)
    → t.row ≤ 25
    → (t.row ≡ 25 → t.col ≡ 0)
    → t.col ≤ 80
    → (let u = next_row t in
        (u.row * 80 + u.col ≡ t.row * 80 + t.col)
        × (u.row ≤ 25)
        × (u.row ≡ 25 → u.col ≡ 0)
        × (u.col < 80)
        × (u.cell ≡ t.cell))
unfolding next_row
next_row-place t r e k = (
  ground (arith, r, e, k),
  ground (arith, r, e, k),
  ground (arith, e, r),
  ground (arith, k),
  ground arith,
)

-- A row too many is scrolled away.
scroll_rows-place :
    (u : Console)
    → u.row ≤ 25
    → (u.row ≡ 25 → u.col ≡ 0)
    → u.col < 80
    → (let v = scroll_rows (u.row - 24) u in
        ((u.row < 25) × (v ≡ u))
        ⊎ (u.row ≡ 25) × (v.row ≡ 24) × (v.col ≡ 0) × ((j : ℕ) → v.cell j ≡ scrolled u.cell j))
unfolding scroll_rows vga_scroll
scroll_rows-place u r e k = elim (Bool-cases (u.row == 25)) [
  | inl full ↦
      let one : u.row - 24 ≡ 1 = ground (arith, full) in
      rw one (
        inr (
          ground (arith, full),
          ground (arith, full),
          ground (arith, full, e),
          λ j. vga_scroll-at u j,
        ))
  | inr room ↦
      let none : u.row - 24 ≡ 0 = ground (arith, room, r) in
      rw none (inl (ground (arith, room, r), refl))
]

pub vga_putchar-unframed :
    (c : ℕ) (s : Console)
    → s.framed ≡ false
    → vga_putchar c s
      ≡ scroll_rows ((next_row (put_at_cursor c s)).row - 24) (next_row (put_at_cursor c s))
unfolding vga_putchar
vga_putchar-unframed c s plain = if_false s.framed _ _ plain

-- vga_putchar of any character, where the cursor is on the screen and no framebuffer is active: the
-- cursor is on the screen again, at the place after the character, counted along the rows: a tab
-- goes to the next multiple of 8, a newline to the next row, a return to the start of the row. An
-- ordinary character is written where the cursor was, and every other cell, also those
-- outside of the screen, is as it was; where the new place is beyond the last row, all rows have
-- moved up by one, and the last row is blank.
pub vga_putchar-Shows :
    (c : ℕ) (s : Console) → IsOnScreen s → s.framed ≡ false → Shows c s (vga_putchar c s)
unfolding Shows scrolled
vga_putchar-Shows c s on plain =
    let (at, r, e, k, cells) = put_at_cursor-place c s on in
    let t = put_at_cursor c s in
    let (at', r', e', k', same) = next_row-place t r e k in
    let u = next_row t in
    let cell_of : (j : ℕ) → u.cell j ≡ written c (s.row * 80 + s.col) s.cell j =
      λ j. ap (λ f. f j) same ∙ cells j in
    subst (Shows c s) (sym (vga_putchar-unframed c s plain)) (elim (scroll_rows-place u r' e' k') [
      | inl (room, v) ↦ (
        ground (arith, room, v),
        ground (arith, k', v),
        inl (
          ground (arith, room, k', at, at'),
          ap (λ v. v.row * 80 + v.col) v ∙ at' ∙ at,
          λ j. ap (λ v. v.cell j) v ∙ cell_of j,
        ),
      )
      | inr (full, row, col, moved) ↦ (
        ground (arith, row),
        ground (arith, col),
        inr (
          ground (arith, full, at, at', e'),
          ground (arith, row, col, full, at, at', e'),
          λ j. moved j ∙ ground (arith, cell_of j, cell_of (j + 80)),
        ),
      )
    ])
