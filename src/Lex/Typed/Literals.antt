-- ===== src/Lex/Typed/Literals.antt =====
-- Strings, code and numbers are stored as their lexemes say.
use dr_lojekyll.Prelude.{
  ℕ, zero, suc, ◌≡◌, refl, Bool, true, false, Option, none, some, List, [], ◌∷◌, length,
  Option-cases, Bool-cases, arith, inl, inr, sym, subst, if◌then◌else◌, ◌==◌, ◌||◌,
}
use dr_lojekyll.Display.Reader.{Reader, try_read_char, unread_char, accumulate_if}
use dr_lojekyll.Lex.Lexeme.{Lexeme, NumberSpellingKind}
use dr_lojekyll.Lex.Token.{Repr, lexeme_of}
use dr_lojekyll.Lex.StringPool.{StringPool}
use dr_lojekyll.Lex.Words.{pick, escapes, is_hex, in_token, in_number}
use dr_lojekyll.Lex.Branches.{error_at}
use dr_lojekyll.Lex.Literals.{
  Error, error_repr, StringScan, start_scan, fail_with, push_char, string_error, escaped_char,
  string_char, take_char, scan_string, lex_string_end, lex_string, scan_code, CodeEnd, code_literal,
  invalid_code, lex_code_end, lex_code,
}
use dr_lojekyll.Lex.Numbers.{
  first_refused, is_binary, first_not_octal, number, literal_or, two_digits, zero_repr, mixed_repr,
  decimal, fraction_attached, fraction_end, fraction, after_point, lex_decimal, lex_digits,
  attached, number_end, lex_number,
}
use dr_lojekyll.Lex.Typed.{Struct, IsTyped, stored_as, struct_of}

record Typed (p : Repr) : Type 0 where
  fits : IsTyped p

literal_or-Typed :
    (r : Reader) (text : List ℕ) (kind : NumberSpellingKind) (w : ℕ) (l : Lexeme)
    (o : Option (ℕ × ℕ)) (r' : Reader)
    → struct_of l ≡ Struct.error_struct
    → Typed (literal_or r text kind w l o r')
unfolding literal_or number error_at stored_as struct_of lexeme_of
literal_or-Typed r text kind w l none r' e = record { fits = refl }
literal_or-Typed r text kind w l (some (i, c)) r' e = record { fits = ground (arith, e) }

if-Typed : (c : Bool) (p q : Repr) → Typed p → Typed q → Typed (if c then p else q)
if-Typed true p q h k = h
if-Typed false p q h k = k

two_digits-IsTyped : (r : Reader) (d : ℕ) → IsTyped (two_digits r d)
unfolding two_digits number stored_as struct_of lexeme_of
two_digits-IsTyped r d = ground arith

zero-Typed : (r : Reader) (c : ℕ) (text : List ℕ) (r' : Reader) → Typed (zero_repr r c text r')
unfolding zero_repr number stored_as struct_of lexeme_of
zero-Typed r c [] r' = record { fits = refl }
zero-Typed r c (d ∷ []) r' = record { fits = two_digits-IsTyped r d }
zero-Typed r c (d ∷ e ∷ digits) r' =
    let text = c ∷ d ∷ e ∷ digits in
    let hex =
      literal_or-Typed r text NumberSpellingKind.hexadecimal 2 Lexeme.invalid_hexadecimal_number
        (first_refused is_hex 2 (e ∷ digits)) r' refl in
    let binary =
      literal_or-Typed r text NumberSpellingKind.binary 2 Lexeme.invalid_binary_number
        (first_refused is_binary 2 (e ∷ digits)) r' refl in
    let octal =
      literal_or-Typed r text NumberSpellingKind.octal 1 Lexeme.invalid_octal_number
        (first_not_octal (d ∷ e ∷ digits)) r' refl in
    if-Typed ((d == b'x') || (d == b'X')) _ _ hex
      (if-Typed ((d == b'b') || (d == b'B')) _ _ binary octal)

digits-IsTyped :
    (r : Reader) (c : ℕ) (digits : List ℕ) (r' : Reader) → IsTyped (lex_digits r c digits r').0
unfolding lex_digits lex_decimal after_point fraction fraction_end fraction_attached decimal
    mixed_repr number error_at stored_as struct_of lexeme_of
digits-IsTyped r c digits r' = ground (arith, (zero-Typed r c digits r').fits)

number_end-IsTyped :
    (r : Reader) (c : ℕ) (digits : List ℕ) (r' : Reader) → IsTyped (number_end r c digits r').0
unfolding number_end attached stored_as struct_of lexeme_of
number_end-IsTyped r c digits r' = elim (Option-cases (try_read_char r')) [
  | inl e ↦ rw (e, number_end) (digits-IsTyped r c digits r')
  | inr ((d, r''), e) ↦ elim (Bool-cases (in_token d)) [
    | inl t ↦ rw (e, t, number_end) refl
    | inr f ↦ rw (e, f, number_end) (digits-IsTyped r c digits (unread_char r''))
  ]
]

pub number-IsTyped :
    (pool : StringPool) (r : Reader) (c : ℕ) (r' : Reader) → IsTyped (lex_number pool r c r').repr
unfolding lex_number
number-IsTyped pool r c r' =
    let more = accumulate_if in_number r' in number_end-IsTyped r c more.0 more.1

code_end-IsTyped :
    (pool : StringPool) (r : Reader) (e : CodeEnd) → IsTyped (lex_code_end pool r e).repr
unfolding lex_code_end code_literal invalid_code error_repr stored_as struct_of lexeme_of
code_end-IsTyped pool r e = ground arith

pub code-IsTyped : (pool : StringPool) (r r' : Reader) → IsTyped (lex_code pool r r').repr
unfolding lex_code invalid_code error_repr stored_as struct_of lexeme_of
code-IsTyped pool r r1 = elim (Option-cases (try_read_char r1)) [
  | inl e ↦ rw (e, lex_code) refl
  | inr ((c, r2), e) ↦ elim (Bool-cases (c == b'`')) [
    | inr f ↦ rw (e, f, lex_code) refl
    | inl t ↦ elim (Option-cases (try_read_char r2)) [
      | inl g ↦ rw (e, t, g, lex_code) refl
      | inr ((d, r3), g) ↦ elim (Bool-cases (d == b'`')) [
        | inr f ↦ rw (e, t, g, f, lex_code) refl
        | inl u ↦
            rw (e, t, g, u, lex_code)
              (code_end-IsTyped pool r (scan_code (suc (length r3.rest)) b'`' [] r3))
      ]
    ]
  ]
]

-- The error of a scan has the lexeme of an error.
abbrev HasTypedError : Option Error → Type 0
HasTypedError none = Unit {0}
HasTypedError (some e) = struct_of e.lexeme ≡ Struct.error_struct

record ScanTyped (s : StringScan) : Type 0 where
  error : HasTypedError s.error

fail-ScanTyped :
    (e : Error) (s : StringScan)
    → struct_of e.lexeme ≡ Struct.error_struct
    → ScanTyped s
    → ScanTyped (fail_with e s)
unfolding fail_with
fail-ScanTyped e s h k = record { error = typed s.error k.error }
  where
    typed :
        (o : Option Error)
        → HasTypedError o
        → HasTypedError (elim o [ none ↦ some e | some first ↦ some first ])
    typed none k = h
    typed (some first) k = k

if-ScanTyped :
    (c : Bool) (s t : StringScan) → ScanTyped s → ScanTyped t → ScanTyped (if c then s else t)
if-ScanTyped true s t h k = h
if-ScanTyped false s t h k = k

escaped-ScanTyped :
    (r : Reader) (c : ℕ) (s : StringScan) → ScanTyped s → ScanTyped (escaped_char r c s)
unfolding escaped_char push_char string_error struct_of
escaped-ScanTyped r c s h = elim (Option-cases (pick c escapes)) [
  | inl e ↦ rw (e, escaped_char) (fail-ScanTyped _ s refl h)
  | inr (m, e) ↦ rw (e, escaped_char) (record { error = h.error })
]

char-ScanTyped : (r : Reader) (c : ℕ) (s : StringScan) → ScanTyped s → ScanTyped (string_char r c s)
unfolding string_char push_char string_error struct_of
char-ScanTyped r c s h =
    let t = record s { prev_was_escape = false } in
    let same : ScanTyped t = record { error = h.error } in
    let escape : ScanTyped (record s { prev_was_escape = true }) = record { error = h.error } in
    let backslash : ScanTyped (push_char b'\\' t) = record { error = h.error } in
    let finished : ScanTyped (record s { is_finished = true }) = record { error = h.error } in
    let pushed : ScanTyped (push_char c s) = record { error = h.error } in
    if-ScanTyped ((c == b'\n') || (c == b'\r')) _ _
      (fail-ScanTyped (string_error r Lexeme.invalid_new_line_in_string s) s refl h)
      (if-ScanTyped (c == b'\\') _ _ (if-ScanTyped s.prev_was_escape _ _ backslash escape) (
        if-ScanTyped s.prev_was_escape _ _ (escaped-ScanTyped r c t same)
          (if-ScanTyped (c == b'"') _ _ finished pushed)))

scan-ScanTyped :
    (fuel : ℕ) (r : Reader) (s : StringScan) → ScanTyped s → ScanTyped (scan_string fuel r s)
unfolding scan_string take_char
scan-ScanTyped zero r s h = h
scan-ScanTyped (suc fuel) r s h = elim (Option-cases (try_read_char s.reader)) [
  | inl e ↦ rw (e, scan_string) h
  | inr ((c, r'), e) ↦
      let k = char-ScanTyped r c (take_char c r' s) (record { error = h.error }) in
      rw (e, scan_string)
        (if-ScanTyped _ _ _ k (scan-ScanTyped fuel r (string_char r c (take_char c r' s)) k))
]

string_end-IsTyped :
    (pool : StringPool) (r : Reader) (s : StringScan)
    → HasTypedError s.error
    → IsTyped (lex_string_end pool r s).repr
unfolding lex_string_end error_repr string_error stored_as struct_of lexeme_of
string_end-IsTyped pool r s h = elim (Option-cases s.error) [
  | inl e ↦ elim (Bool-cases s.is_finished) [
    | inl t ↦ simp (e, t, lex_string_end) refl
    | inr f ↦ simp (e, f, lex_string_end) refl
  ]
  | inr (k, e) ↦ simp (e, lex_string_end) (sym (subst HasTypedError e h))
]

pub string-IsTyped :
    (pool : StringPool) (r : Reader) (c : ℕ) (r' : Reader) → IsTyped (lex_string pool r c r').repr
unfolding lex_string
string-IsTyped pool r c r' =
    string_end-IsTyped pool r (scan_string (length r'.rest) r (start_scan c r'))
      (scan-ScanTyped (length r'.rest) r (start_scan c r') (record { error = tt })).error
