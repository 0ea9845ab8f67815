-- ===== src/Display/Reads.antt =====
-- Reading and unreading: where a reader stands is what it has read.
use mathlib.Core.List.{append_assoc}
use dr_lojekyll.Prelude.{
  ℕ, zero, suc, ◌+◌, ◌-◌, ◌≤◌, ◌≡◌, refl, sym, ap, ◌∙◌, ◌⊎◌, inl, inr, Bool, true, false, none,
  some, List, [], ◌∷◌, ◌++◌, arith, length, Bool-cases, ◌==◌, if◌then◌else◌,
}
use dr_lojekyll.Display.Reader.{
  Reader, start_reader, step, try_read_char, tail_width, back, unread_char, accumulate,
  accumulate_if,
}

unfoldable pub num_breaks : List ℕ → ℕ
num_breaks [] = 0
num_breaks (c ∷ read) = (if c == b'\n' then 1 else 0) + num_breaks read

-- Line and column count what was read.
pub record IsPlaced (r : Reader) : Type 0 where
  pub line : r.line ≡ 1 + num_breaks r.read
  pub column : r.column ≡ 1 + tail_width r.read

abbrev pub onto : List ℕ → List ℕ → List ℕ
onto [] read = read
onto (c ∷ cs) read = onto cs (c ∷ read)

-- From `r` to `r'` the characters `cs` are read.
pub record Reads (r : Reader) (cs : List ℕ) (r' : Reader) : Type 0 where
  pub display_id : r'.display_id ≡ r.display_id
  pub failed : r'.failed ≡ r.failed
  pub split : r.rest ≡ cs ++ r'.rest
  pub read : r'.read ≡ onto cs r.read
  pub placed : IsPlaced r'

pub start_reader-IsPlaced :
    (i : ℕ) (failed : Bool) (text : List ℕ) → IsPlaced (start_reader i failed text)
unfolding num_breaks tail_width
start_reader-IsPlaced i failed text = record { line = refl; column = refl }

pub Reads-nil : (r : Reader) → IsPlaced r → Reads r [] r
Reads-nil r p = record { display_id = refl; failed = refl; split = refl; read = refl; placed = p }

onto-append : (cs ds read : List ℕ) → onto (cs ++ ds) read ≡ onto ds (onto cs read)
onto-append [] ds read = refl
onto-append (c ∷ cs) ds read = onto-append cs ds (c ∷ read)

pub Reads-trans :
    (r r' r'' : Reader) (cs ds : List ℕ) → Reads r cs r' → Reads r' ds r'' → Reads r (cs ++ ds) r''
Reads-trans r r' r'' cs ds f g = record {
  display_id = g.display_id ∙ f.display_id;
  failed = g.failed ∙ f.failed;
  split = rw (f.split, g.split) (sym (append_assoc cs ds r''.rest));
  read = g.read ∙ ap (onto ds) f.read ∙ sym (onto-append cs ds r.read);
  placed = g.placed;
}

step-IsPlaced : (c : ℕ) (rest : List ℕ) (r : Reader) → IsPlaced r → IsPlaced (step c rest r)
unfolding step num_breaks tail_width
step-IsPlaced c rest r p = record {
  line = ground (arith, p.line);
  column = ground (arith, p.column);
}

pub List-cases : (xs : List ℕ) → (xs ≡ []) ⊎ ((c : ℕ) × (cs : List ℕ) × (xs ≡ c ∷ cs))
List-cases [] = inl refl
List-cases (c ∷ cs) = inr (c, cs, refl)

back-step :
    (c : ℕ) (rest : List ℕ) (r : Reader)
    → IsPlaced r
    → r.rest ≡ c ∷ rest
    → back c r.read (step c rest r) ≡ r
unfolding back step
back-step c rest r p e =
    let l : (if c == b'\n'
          then (if c == b'\n' then r.line + 1 else r.line) - 1
          else (if c == b'\n' then r.line + 1 else r.line))
        ≡ r.line =
      ground arith in
    let k : (if c == b'\n'
          then 1 + tail_width r.read
          else (if c == b'\n' then 1 else r.column + 1) - 1)
        ≡ r.column =
      ground (arith, p.column) in
    λ i. record r { rest = sym e i; line = l i; column = k i }

step-Reads :
    (c : ℕ) (rest : List ℕ) (r : Reader)
    → IsPlaced r
    → r.rest ≡ c ∷ rest
    → Reads r (c ∷ []) (step c rest r)
unfolding step
step-Reads c rest r p e = record {
  display_id = refl;
  failed = refl;
  split = e;
  read = refl;
  placed = step-IsPlaced c rest r p;
}

-- A read character can be unread.
pub record ReadsOne (r : Reader) (c : ℕ) (r' : Reader) : Type 0 where
  pub run : try_read_char r ≡ some (c, r')
  pub reads : Reads r (c ∷ []) r'
  pub unread : unread_char r' ≡ r

pub try_read_char-cases :
    (r : Reader)
    → IsPlaced r
    → ((r.rest ≡ []) × (try_read_char r ≡ none)) ⊎ ((c : ℕ) × (r' : Reader) × ReadsOne r c r')
unfolding try_read_char unread_char step back
try_read_char-cases r p = elim (List-cases r.rest) [
  | inl e ↦ inl (e, rw e refl)
  | inr (c, rest, e) ↦ inr (
    c,
    step c rest r,
    record { run = rw e refl; reads = step-Reads c rest r p e; unread = back-step c rest r p e },
  )
]

abbrev pub All : (ℕ → Bool) → List ℕ → Type 0
All accept [] = Unit {0}
All accept (c ∷ cs) = (accept c ≡ true) × All accept cs

abbrev pub Refuses : (ℕ → Bool) → List ℕ → Type 0
Refuses accept [] = Unit {0}
Refuses accept (c ∷ cs) = accept c ≡ false

-- All characters that are accepted are read, up to the first that is not.
pub record Accumulates (accept : ℕ → Bool) (r : Reader) (o : List ℕ × Reader) : Type 0 where
  pub reads : Reads r o.0 o.1
  pub all : All accept o.0
  pub stops : Refuses accept o.1.rest

Refuses-cons :
    (accept : ℕ → Bool) (c : ℕ) (r : Reader) (cs : List ℕ)
    → r.rest ≡ c ∷ cs
    → accept c ≡ false
    → Refuses accept r.rest
Refuses-cons accept c r cs e f = rw e f

Accumulates-refused :
    (accept : ℕ → Bool) (c : ℕ) (r r' : Reader)
    → IsPlaced r
    → ReadsOne r c r'
    → accept c ≡ false
    → Accumulates accept r ([], unread_char r')
Accumulates-refused accept c r r' p one f = rw one.unread (record {
  reads = Reads-nil r p;
  all = tt;
  stops = Refuses-cons accept c r r'.rest one.reads.split f;
})

Accumulates-cons :
    (accept : ℕ → Bool) (c : ℕ) (r r' : Reader) (o : List ℕ × Reader)
    → ReadsOne r c r'
    → accept c ≡ true
    → Accumulates accept r' o
    → Accumulates accept r (c ∷ o.0, o.1)
Accumulates-cons accept c r r' o one f rest = record {
  reads = Reads-trans r r' o.1 (c ∷ []) o.0 one.reads rest.reads;
  all = (f, rest.all);
  stops = rest.stops;
}

Accumulates-end :
    (accept : ℕ → Bool) (r : Reader) → IsPlaced r → r.rest ≡ [] → Accumulates accept r ([], r)
Accumulates-end accept r p e = record { reads = Reads-nil r p; all = tt; stops = rw e tt }

pub ReadsOne-length :
    (c : ℕ) (r r' : Reader) → ReadsOne r c r' → length r.rest ≡ suc (length r'.rest)
ReadsOne-length c r r' one = ap length one.reads.split

ReadsOne-rest :
    {fuel : ℕ} (c : ℕ) (r r' : Reader)
    → ReadsOne r c r'
    → length r.rest ≤ suc fuel
    → length r'.rest ≤ fuel
ReadsOne-rest c r r' one h = let e = ReadsOne-length c r r' one in omega arith

accumulate_end :
    (fuel : ℕ) (accept : ℕ → Bool) (r : Reader)
    → try_read_char r ≡ none
    → accumulate fuel accept r ≡ ([], r)
unfolding accumulate
accumulate_end zero accept r e = refl
accumulate_end (suc fuel) accept r e = rw (e, accumulate) refl

accumulate_refused :
    (fuel : ℕ) (accept : ℕ → Bool) (c : ℕ) (r r' : Reader)
    → try_read_char r ≡ some (c, r')
    → accept c ≡ false
    → accumulate (suc fuel) accept r ≡ ([], unread_char r')
unfolding accumulate
accumulate_refused fuel accept c r r' e f = rw (e, accumulate, f) refl

accumulate_cons :
    (fuel : ℕ) (accept : ℕ → Bool) (c : ℕ) (r r' : Reader)
    → try_read_char r ≡ some (c, r')
    → accept c ≡ true
    → accumulate (suc fuel) accept r
      ≡ (c ∷ (accumulate fuel accept r').0, (accumulate fuel accept r').1)
unfolding accumulate
accumulate_cons fuel accept c r r' e f = rw (e, accumulate, f) refl

accumulate-Reads :
    (fuel : ℕ) (accept : ℕ → Bool) (r : Reader)
    → IsPlaced r
    → length r.rest ≤ fuel
    → Accumulates accept r (accumulate fuel accept r)
accumulate-Reads zero accept r p h = elim (try_read_char-cases r p) [
  | inl (e, f) ↦ rw (accumulate_end zero accept r f) (Accumulates-end accept r p e)
  | inr (c, r', one) ↦ let e = ReadsOne-length c r r' one in absurd (omega arith)
]
accumulate-Reads (suc fuel) accept r p h = elim (try_read_char-cases r p) [
  | inl (e, f) ↦ rw (accumulate_end (suc fuel) accept r f) (Accumulates-end accept r p e)
  | inr (c, r', one) ↦ elim (Bool-cases (accept c)) [
    | inl t ↦ rw (accumulate_cons fuel accept c r r' one.run t) (
        Accumulates-cons accept c r r' (accumulate fuel accept r') one t
          (accumulate-Reads fuel accept r' one.reads.placed (ReadsOne-rest c r r' one h)))
    | inr f ↦
        rw (accumulate_refused fuel accept c r r' one.run f)
          (Accumulates-refused accept c r r' p one f)
  ]
]

-- From a reader whose line and column count what was read, accumulate_if reads all characters
-- that are accepted up to the first that is not, which stays unread, or to the end; line and
-- column count what is read then.
pub accumulate_if-Accumulates :
    (accept : ℕ → Bool) (r : Reader) → IsPlaced r → Accumulates accept r (accumulate_if accept r)
unfolding accumulate_if
accumulate_if-Accumulates accept r p = accumulate-Reads (length r.rest) accept r p (omega arith)
