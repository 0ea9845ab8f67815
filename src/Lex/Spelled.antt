-- ===== src/Lex/Spelled.antt =====
-- Identifier tokens give back the text that was read for them.
use native.Mathlib.Nat.{mod-eq_of_lt}
use dr_lojekyll.Prelude.{ℕ, ◌^◌, ◌<◌, ◌≡◌, ◌⊎◌, inl, inr, false, List, ◌∷◌, length, arith}
use dr_lojekyll.Display.Reader.{Reader}
use dr_lojekyll.Lex.Token.{to_16, to_32, identifier_id, identifier_length}
use dr_lojekyll.Lex.StringPool.{StringPool, intern_string, try_read_string, ReadString}
use dr_lojekyll.Lex.StringPool.Intern.{IsPool, Names-length, StartsWith, intern_string-Interns}
use dr_lojekyll.Lex.StringPool.Ids.{intern_string-try_read_string}
use dr_lojekyll.Lex.Branches.{Tentative, identifier, lex_identifier, lex_name}

-- The id of an interned text fits in 32 bits.
id_lem :
    (text : List ℕ) (pool : StringPool)
    → IsPool pool
    → length pool.pool < 2 ^ 32
    → length (intern_string false text pool).1.pool < 2 ^ 32
    → to_32 (intern_string false text pool).0 ≡ (intern_string false text pool).0
id_lem text pool i h k =
    let o = intern_string false text pool in
    let n = Names-length o.1 o.0 text (intern_string-Interns false text pool i h).names in
    mod-eq_of_lt (omega arith)

-- What the lexer stores for a word reads back, in any later pool.
reads_back :
    (text : List ℕ) (pool later : StringPool)
    → IsPool pool
    → length pool.pool < 2 ^ 32
    → length (intern_string false text pool).1.pool < 2 ^ 32
    → length later.pool < 2 ^ 32
    → length text < 2 ^ 16
    → StartsWith later.pool (intern_string false text pool).1.pool
    → try_read_string (to_32 (intern_string false text pool).0) (to_16 (length text)) later
      ≡ ReadString.found text
reads_back text pool later i h k m l s =
    rw (id_lem text pool i h k, mod-eq_of_lt l)
      (intern_string-try_read_string false text pool later i m s h)

abbrev pub IsName : Tentative → Type 0
IsName t = (t ≡ Tentative.atom) ⊎ (t ≡ Tentative.variable)

-- For a word that is an atom or a variable, of fewer than 2 ^ 16 characters, the id and the
-- length that the token stores read the word back from every pool that goes on from the one
-- after the token, if the pools have fewer than 2 ^ 32 bytes.
pub lex_name-try_read_string :
    (t : Tentative) (pool later : StringPool) (r : Reader) (c : ℕ) (text : List ℕ) (r' : Reader)
    → IsName t
    → IsPool pool
    → length pool.pool < 2 ^ 32
    → length (lex_name t pool r c text r').pool.pool < 2 ^ 32
    → length later.pool < 2 ^ 32
    → length (c ∷ text) < 2 ^ 16
    → StartsWith later.pool (lex_name t pool r c text r').pool.pool
    → try_read_string
        (identifier_id (lex_name t pool r c text r').repr)
        (identifier_length (lex_name t pool r c text r').repr)
        later
      ≡ ReadString.found (c ∷ text)
unfolding lex_name lex_identifier identifier identifier_id identifier_length
lex_name-try_read_string Tentative.directive pool later r c text r' (inl e) i h k m l s =
    absurd (cc e)
lex_name-try_read_string Tentative.directive pool later r c text r' (inr e) i h k m l s =
    absurd (cc e)
lex_name-try_read_string Tentative.atom pool later r c text r' n i h k m l s =
    reads_back (c ∷ text) pool later i h k m l s
lex_name-try_read_string Tentative.variable pool later r c text r' n i h k m l s =
    reads_back (c ∷ text) pool later i h k m l s
lex_name-try_read_string Tentative.unnamed_variable pool later r c text r' (inl e) i h k m l s =
    absurd (cc e)
lex_name-try_read_string Tentative.unnamed_variable pool later r c text r' (inr e) i h k m l s =
    absurd (cc e)
