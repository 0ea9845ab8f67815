-- ===== src/Display/Import/Counts.antt =====
-- The imported characters, and the line and the column that count them.
use native.Mathlib.Nat.{mod-lt, mod-eq_of_lt, div-add-mod'}
use dr_lojekyll.Prelude.{
  ℕ, zero, suc, ◌+◌, ◌-◌, ◌%◌, ◌^◌, ◌<◌, ◌≤◌, ◌≡◌, refl, sym, ap, subst, ◌∙◌, inl, inr, Bool, true,
  false, ◌||◌, ◌&&◌, if◌then◌else◌, ltb, List, [], ◌∷◌, length, arith, leb, ◌==◌, Bool-cases,
}
use dr_lojekyll.Display.Reader.{tail_width}
use dr_lojekyll.Display.Reads.{num_breaks, All}
use dr_lojekyll.Display.Import.{
  Configuration, Import, put, put_spaces, tab_column, import_tab, import_break, import_printable,
  start_import, import_char, import_text,
}

-- A line break or a printable character: no tab and no carriage return.
unfoldable pub is_text : ℕ → Bool
is_text c = (c == b'\n') || (leb b' ' c && leb c b'~')

pub record Counts (s : Import) : Type 0 where
  pub line : s.next_line ≡ 1 + num_breaks s.read
  pub column : s.next_column ≡ 1 + tail_width s.read
  pub text : All is_text s.read

breaks-length : (cs : List ℕ) → num_breaks cs ≤ length cs
unfolding num_breaks
breaks-length [] = omega arith
breaks-length (c ∷ cs) = let e = breaks-length cs in ground (arith, e)

width-length : (cs : List ℕ) → tail_width cs ≤ length cs
unfolding tail_width
width-length [] = omega arith
width-length (c ∷ cs) = let e = width-length cs in ground (arith, e)

-- What spaces do to the characters.
record Spaced (k : ℕ) (s s' : Import) : Type 0 where
  length_lem : length s'.read ≡ k + length s.read
  breaks : num_breaks s'.read ≡ num_breaks s.read
  width : tail_width s'.read ≡ k + tail_width s.read
  line : s'.next_line ≡ s.next_line
  column : s'.next_column ≡ s.next_column
  text : All is_text s.read → All is_text s'.read

put_spaces-Spaced : (k : ℕ) (s : Import) → Spaced k s (put_spaces k s)
unfolding put_spaces put num_breaks tail_width is_text
put_spaces-Spaced zero s = record {
  length_lem = omega arith;
  breaks = refl;
  width = omega arith;
  line = refl;
  column = refl;
  text = λ a. a;
}
put_spaces-Spaced (suc k) s =
    let h = put_spaces-Spaced k (put b' ' s) in
    let a = h.length_lem in
    let b = h.width in
    record {
      length_lem = omega arith;
      breaks = h.breaks ∙ omega arith;
      width = omega arith;
      line = h.line;
      column = h.column;
      text = λ x. h.text (refl, x);
    }

-- A tab goes to a later column, at most a tab's width on.
record Tabs (config : Configuration) (column : ℕ) : Type 0 where
  later : column < tab_column config column
  near : tab_column config column ≤ column + config.num_spaces_in_tab

tab_column-Tabs :
    (config : Configuration) (column : ℕ)
    → 0 < config.num_spaces_in_tab
    → column + config.num_spaces_in_tab < 2 ^ 32
    → Tabs config column
unfolding tab_column
tab_column-Tabs config column h l = elim (Bool-cases config.use_tab_stops) [
  | inr f ↦ record {
    later = rw (mod-eq_of_lt l, f, tab_column) (omega arith);
    near = rw (mod-eq_of_lt l, f, tab_column) (omega arith);
  }
  | inl t ↦
      let n = config.num_spaces_in_tab in
      let a = div-add-mod' (column + n) n in
      let b = mod-lt (column + n) h in
      record {
        later = rw (mod-eq_of_lt l, t, tab_column) (omega arith);
        near = rw (mod-eq_of_lt l, t, tab_column) (omega arith);
      }
]

import_tab-Counts :
    (config : Configuration) (s : Import)
    → 0 < config.num_spaces_in_tab
    → length s.read + config.num_spaces_in_tab + 1 < 2 ^ 32
    → Counts s
    → Counts (import_tab config s)
unfolding import_tab
import_tab-Counts config s h l c =
    let w = width-length s.read in
    let e = c.column in
    let t = tab_column-Tabs config s.next_column h (omega arith) in
    let next = tab_column config s.next_column in
    let a = t.later in
    let b = t.near in
    let k : (next + 2 ^ 32 - s.next_column) % 2 ^ 32 ≡ next - s.next_column = omega arith in
    let p =
      put_spaces-Spaced ((next + 2 ^ 32 - s.next_column) % 2 ^ 32)
        (record s { next_column = next }) in
    let x = p.width in
    record {
      line = p.line ∙ c.line ∙ ap (λ n. 1 + n) (sym p.breaks);
      column = p.column ∙ omega arith;
      text = p.text c.text;
    }

import_break-Counts : (s : Import) → length s.read + 2 < 2 ^ 32 → Counts s → Counts (import_break s)
unfolding import_break put num_breaks tail_width is_text
import_break-Counts s l c =
    let b = breaks-length s.read in
    let e = c.line in
    let q : (s.next_line + 1) % 2 ^ 32 ≡ s.next_line + 1 = mod-eq_of_lt (omega arith) in
    record { line = q ∙ omega arith; column = refl; text = (refl, c.text) }

import_printable-Counts :
    (c : ℕ) (s : Import)
    → length s.read + 2 < 2 ^ 32
    → (c == b'\n') ≡ false
    → is_text c ≡ true
    → Counts s
    → Counts (import_printable c s)
unfolding import_printable put num_breaks tail_width
import_printable-Counts c s l f t h =
    let b = width-length s.read in
    let e = h.column in
    let q : (s.next_column + 1) % 2 ^ 32 ≡ s.next_column + 1 = mod-eq_of_lt (omega arith) in
    record {
      line = rw f (h.line ∙ omega arith);
      column = rw f (q ∙ omega arith);
      text = (t, h.text);
    }

if-Counts :
    (b : Bool) (s t : Import)
    → (b ≡ true → Counts s)
    → (b ≡ false → Counts t)
    → Counts (if b then s else t)
if-Counts true s t h k = h refl
if-Counts false s t h k = k refl

printable_lem : (c : ℕ) → (ltb c b' ' || ltb b'~' c) ≡ false → is_text c ≡ true
unfolding is_text
printable_lem c f = ground (arith, f)

import_char-Counts :
    (config : Configuration) (c : ℕ) (s : Import)
    → 0 < config.num_spaces_in_tab
    → length s.read + config.num_spaces_in_tab + 1 < 2 ^ 32
    → Counts s
    → Counts (import_char config c s)
unfolding import_char
import_char-Counts config c s h l k =
    if-Counts (c == b'\r') s _ (λ t. k)
      (λ f0.
        if-Counts (c == b'\n') (import_break s) _ (λ t. import_break-Counts s (omega arith) k)
          (λ f.
            if-Counts (c == b'\t') (import_tab config s) _ (λ t. import_tab-Counts config s h l k)
              (λ g.
                if-Counts (ltb c b' ' || ltb b'~' c) (record s { failed = true })
                  (import_printable c s)
                  (λ t. record { line = k.line; column = k.column; text = k.text })
                  (λ e. import_printable-Counts c s (omega arith) f (printable_lem c e) k))))

-- At least `n` characters are read.
record Longer (n : ℕ) (s : Import) : Type 0 where
  longer : n ≤ length s.read

if-Longer :
    (b : Bool) (n : ℕ) (s t : Import) → Longer n s → Longer n t → Longer n (if b then s else t)
if-Longer true n s t h k = h
if-Longer false n s t h k = k

import_tab-Longer :
    (config : Configuration) (s : Import) → Longer (length s.read) (import_tab config s)
unfolding import_tab
import_tab-Longer config s =
    let next = tab_column config s.next_column in
    let p =
      put_spaces-Spaced ((next + 2 ^ 32 - s.next_column) % 2 ^ 32)
        (record s { next_column = next }) in
    let l = p.length_lem in record { longer = omega arith }

import_char-Longer :
    (config : Configuration) (c : ℕ) (s : Import) → Longer (length s.read) (import_char config c s)
unfolding import_char import_break import_printable put
import_char-Longer config c s =
    if-Longer (c == b'\r') _ s _ (record { longer = omega arith })
      (if-Longer (c == b'\n') _ (import_break s) _ (record { longer = omega arith })
        (if-Longer (c == b'\t') _ (import_tab config s) _ (import_tab-Longer config s) (
          if-Longer (ltb c b' ' || ltb b'~' c) _ (record s { failed = true }) (import_printable c s)
            (record { longer = omega arith }) (record { longer = omega arith }))))

import_text-Longer :
    (config : Configuration) (text : List ℕ) (s : Import)
    → Longer (length s.read) (import_text config text s)
unfolding import_text
import_text-Longer config [] s = record { longer = omega arith }
import_text-Longer config (c ∷ text) s =
    let s' = import_char config c s in
    let a = import_char-Longer config c s in
    let b = import_text-Longer config text s' in
    if-Longer s'.failed _ s' (import_text config text s') a
      (record { longer = let d = a.longer in let e = b.longer in omega arith })

if_false : (b : Bool) (s t : Import) → b ≡ false → (if b then s else t) ≡ t
if_false b s t f = rw f refl

import_from-Counts :
    (config : Configuration) (text : List ℕ) (s : Import)
    → 0 < config.num_spaces_in_tab
    → length (import_text config text s).read + config.num_spaces_in_tab + 1 < 2 ^ 32
    → Counts s
    → Counts (import_text config text s)
unfolding import_text
import_from-Counts config [] s h l k = k
import_from-Counts config (c ∷ text) s h l k =
    let s' = import_char config c s in
    let rest = import_text config text s' in
    let k' =
      import_char-Counts config c s h
        (let a = (import_text-Longer config (c ∷ text) s).longer in omega arith) k in
    if-Counts s'.failed s' rest (λ t. k')
      (λ f.
        import_from-Counts config text s' h
          (subst (λ x. length x.read + config.num_spaces_in_tab + 1 < 2 ^ 32)
            (if_false s'.failed s' rest f) l)
          k')

-- With a tab of at least one space, and fewer characters than fit in 32 bits together with a tab
-- and one more, the line and the column that a display keeps while it imports a stream count the
-- line breaks and the characters since the last one, and each imported character is a line break
-- or printable: no tab, carriage return or invalid character is left.
pub import_text-Counts :
    (config : Configuration) (display_id : ℕ) (text : List ℕ)
    → 0 < config.num_spaces_in_tab
    → length (import_text config text (start_import display_id)).read + config.num_spaces_in_tab + 1
      < 2 ^ 32
    → Counts (import_text config text (start_import display_id))
unfolding num_breaks tail_width
import_text-Counts config display_id text h l =
    import_from-Counts config text (start_import display_id) h l
      (record { line = refl; column = refl; text = tt })
