-- ===== src/Util/Names/Parse.antt =====
-- The buffer of name records of darshan-util/darshan-logutils.c: what is parsed of a part of it.
use darshan.Prelude.{
  ℕ, zero, suc, ◌+◌, ◌<◌, ◌≤◌, ◌≡◌, ◌≢◌, refl, ap, ◌∙◌, sym, Bool, Option, none, some, List, [],
  ◌∷◌, ◌++◌, arith, ◌⊎◌, inl, inr, length, take, drop, leb, leb→le, Bool-cases, length-append,
  take-append, take-append_all, drop-append_all, drop-append_le, drop-drop, length-drop,
}
use darshan.Prelude.Hash.{Uthash}
use darshan.Prelude.Words.{word}
use darshan.Core.State.{Bytes, NameRecord}
use darshan.Util.Ids.{write_id, read_id-write_id, length-write_id}
use darshan.Util.Names.{split_name, next_record, add_record, parse_records}

-- A record in the log, before the bytes `rest`: its identifier, its name and the terminator.
unfoldable pub record_bytes : Bool → NameRecord → List ℕ → List ℕ
record_bytes swap r rest = write_id swap r.id ++ (r.name ++ 0 ∷ rest)

unfoldable pub log_bytes : Bool → List NameRecord → List ℕ
unfolding record_bytes
log_bytes swap [] = []
log_bytes swap (r ∷ rs) = record_bytes swap r (log_bytes swap rs)

unfoldable pub size_of : NameRecord → ℕ
size_of r = 8 + length r.name + 1

pub length-log_bytes :
    (swap : Bool) (r : NameRecord) (rs : List NameRecord)
    → length (log_bytes swap (r ∷ rs)) ≡ size_of r + length (log_bytes swap rs)
unfolding log_bytes size_of
length-log_bytes swap r rs = omega (
  arith,
  length-append (write_id swap r.id) (r.name ++ 0 ∷ log_bytes swap rs),
  length-append r.name (0 ∷ log_bytes swap rs),
  length-write_id swap r.id,
)

-- The bytes of a C string.
abbrev pub IsString : Bytes → Type 0
IsString [] = Unit
IsString (b ∷ bs) = (b ≢ 0) × IsString bs

-- Records of 64-bit identifiers and C strings, each of at most `size` bytes.
abbrev pub AllNames : ℕ → List NameRecord → Type 0
AllNames size [] = Unit
AllNames size (r ∷ rs) = (r.id < word) × IsString r.name × (size_of r ≤ size) × AllNames size rs

-- A name cut short by the end of the buffer is not found, a whole name is.
split_name-part :
    (name : Bytes) (buf rest more : List ℕ)
    → IsString name
    → buf ++ rest ≡ name ++ 0 ∷ more
    → ((split_name buf ≡ none) × (length buf ≤ length name))
      ⊎ ((buf' : List ℕ) × (split_name buf ≡ some (name, buf'))
          × (buf' ++ rest ≡ more)
          × (length buf ≡ length name + 1 + length buf')
          × (drop (suc (length name)) buf ≡ buf'))
unfolding split_name
split_name-part [] [] rest more p e = inl (refl, omega arith)
split_name-part (x ∷ xs) [] rest more p e = inl (refl, omega arith)
split_name-part [] (zero ∷ bs) rest more p e =
    let e' : bs ++ rest ≡ more = cc in inr (bs, refl, e', omega arith, refl)
split_name-part [] (suc b ∷ bs) rest more p e = let e' : suc b ≡ 0 = cc in absurd (omega arith)
split_name-part (x ∷ xs) (zero ∷ bs) rest more p e = let e' : 0 ≡ x = cc in absurd (p.0 (sym e'))
split_name-part (x ∷ xs) (suc b ∷ bs) rest more p e =
    let head : suc b ≡ x = cc in
    let tail : bs ++ rest ≡ xs ++ 0 ∷ more = cc in
    elim (split_name-part xs bs rest more p.1 tail) [
      | inl (cut, short) ↦ inl (rw (split_name, cut) refl, omega arith)
      | inr (buf', whole, left, size, gone) ↦
          inr (buf', rw (split_name, whole, head) refl, left, omega arith, gone)
    ]

next_record-part :
    (swap : Bool) (r : NameRecord) (buf rest more : List ℕ)
    → r.id < word
    → IsString r.name
    → buf ++ rest ≡ record_bytes swap r more
    → ((next_record swap buf ≡ none) × (length buf < size_of r))
      ⊎ ((buf' : List ℕ) × (next_record swap buf ≡ some (r, buf'))
          × (buf' ++ rest ≡ more)
          × (length buf ≡ size_of r + length buf')
          × (drop (size_of r) buf ≡ buf'))
unfolding record_bytes size_of next_record
next_record-part swap r buf rest more small name e = elim (Bool-cases (leb 9 (length buf))) [
  | inr few ↦ inl (rw (next_record, few) refl, ground arith)
  | inl enough ↦
      let long : 8 ≤ length buf = ground (arith, leb→le 9 (length buf) enough) in
      let id : take 8 buf ≡ write_id swap r.id =
        sym (take-append 8 buf rest long)
        ∙ ap (take 8) e
        ∙ take-append_all 8 (write_id swap r.id) _ (length-write_id swap r.id) in
      let tail : drop 8 buf ++ rest ≡ r.name ++ 0 ∷ more =
        sym (drop-append_le 8 buf rest long)
        ∙ ap (drop 8) e
        ∙ drop-append_all 8 (write_id swap r.id) _ (length-write_id swap r.id) in
      let rest_length = length-drop 8 buf long in
      elim (split_name-part r.name (drop 8 buf) rest more name tail) [
        | inl (cut, short) ↦ inl (rw (next_record, enough, cut) refl, omega arith)
        | inr (buf', whole, left, size, gone) ↦
            let e8 : 8 + length r.name + 1 ≡ 8 + suc (length r.name) = omega arith in
            inr (
              buf',
              rw (next_record, enough, whole, id, read_id-write_id swap r.id small) refl,
              left,
              omega arith,
              rw (e8, ← drop-drop 8 (suc (length r.name)) buf) gone,
            )
      ]
]

-- The records of a part of the log, added in order.
unfoldable pub add_all :
    {T : Type 0} → ⦃h : Uthash NameRecord T⦄ → Option (List ℕ) → T → List NameRecord → T
add_all whitelist t [] = t
add_all whitelist t (r ∷ rs) = add_all whitelist (add_record whitelist t r) rs

pub add_all-append :
    {T : Type 0}
    → ⦃h : Uthash NameRecord T⦄ → (whitelist : Option (List ℕ)) (t : T) (xs ys : List NameRecord)
    → add_all whitelist t (xs ++ ys) ≡ add_all whitelist (add_all whitelist t xs) ys
unfolding add_all
add_all-append whitelist t [] ys = refl
add_all-append whitelist t (x ∷ xs) ys = add_all-append whitelist (add_record whitelist t x) xs ys

-- Nothing whole is left at the front of the bytes `left` of the records `todo`.
abbrev pub IsCut : List ℕ → List NameRecord → Type 0
IsCut left [] = Unit
IsCut left (r ∷ rs) = length left < size_of r

-- The buffer after its whole records `done` are added to the table.
pub record Parsed {T : Type 0} ⦃h : Uthash NameRecord T⦄ (swap : Bool) (whitelist : Option (List ℕ))
    (size : ℕ) (buf rest : List ℕ) (rs : List NameRecord) (t : T) (out : T × ℕ) : Type 0 where
  pub done : List NameRecord
  pub todo : List NameRecord
  pub parts : rs ≡ done ++ todo
  pub added : out.0 ≡ add_all whitelist t done
  pub within : out.1 ≤ length buf
  pub left : drop out.1 buf ++ rest ≡ log_bytes swap todo
  pub cut : IsCut (drop out.1 buf) todo
  pub fine : AllNames size todo

module _ {T : Type 0} ⦃h : Uthash NameRecord T⦄ (swap : Bool) (whitelist : Option (List ℕ)) where
  parse_records-cut :
      (fuel : ℕ) (buf : List ℕ) (t : T)
      → next_record swap buf ≡ none
      → parse_records fuel swap whitelist buf t ≡ (t, 0)
  unfolding parse_records
  parse_records-cut zero buf t e = refl
  parse_records-cut (suc fuel) buf t e = rw (parse_records, e) refl

  parse_records-whole :
      (fuel : ℕ) (buf buf' : List ℕ) (r : NameRecord) (t : T)
      → next_record swap buf ≡ some (r, buf')
      → let out = parse_records fuel swap whitelist buf' (add_record whitelist t r) in
        parse_records (suc fuel) swap whitelist buf t ≡ (out.0, size_of r + out.1)
  unfolding parse_records size_of
  parse_records-whole fuel buf buf' r t e = rw (parse_records, e) refl

  -- Nothing is taken from a buffer without a whole record.
  Parsed-cut :
      (fuel size : ℕ) (buf rest : List ℕ) (rs : List NameRecord) (t : T)
      → next_record swap buf ≡ none
      → AllNames size rs
      → buf ++ rest ≡ log_bytes swap rs
      → IsCut buf rs
      → Parsed swap whitelist size buf rest rs t (parse_records fuel swap whitelist buf t)
  unfolding add_all
  Parsed-cut fuel size buf rest rs t stop fine e short =
      rw (parse_records-cut fuel buf t stop) (record {
        done = [];
        todo = rs;
        parts = refl;
        added = refl;
        within = omega arith;
        left = e;
        cut = short;
        fine = fine;
      })

  Parsed-whole :
      (size : ℕ) (buf buf' rest : List ℕ) (r : NameRecord) (rs : List NameRecord) (t : T)
      (out : T × ℕ)
      → length buf ≡ size_of r + length buf'
      → drop (size_of r) buf ≡ buf'
      → Parsed swap whitelist size buf' rest rs (add_record whitelist t r) out
      → Parsed swap whitelist size buf rest (r ∷ rs) t (out.0, size_of r + out.1)
  unfolding add_all
  Parsed-whole size buf buf' rest r rs t out long gone p =
      let same : drop (size_of r + out.1) buf ≡ drop out.1 buf' =
        sym (drop-drop (size_of r) out.1 buf) ∙ ap (drop out.1) gone in
      record {
        done = r ∷ p.done;
        todo = p.todo;
        parts = ap (r ∷◌) p.parts;
        added = p.added;
        within = omega (arith, p.within);
        left = rw same p.left;
        cut = rw same p.cut;
        fine = p.fine;
      }

  parse_some :
      (fuel size : ℕ) (buf buf' rest : List ℕ) (r : NameRecord) (rs : List NameRecord) (t : T)
      → length buf ≤ fuel
      → ((f : ℕ)
          → length buf' ≤ f
          → Parsed swap whitelist size buf' rest rs
              (add_record whitelist t r)
              (parse_records f swap whitelist buf' (add_record whitelist t r)))
      → next_record swap buf ≡ some (r, buf')
      → length buf ≡ size_of r + length buf'
      → drop (size_of r) buf ≡ buf'
      → Parsed swap whitelist size buf rest (r ∷ rs) t (parse_records fuel swap whitelist buf t)
  unfolding size_of
  parse_some zero size buf buf' rest r rs t enough k whole long gone = absurd (omega arith)
  parse_some (suc fuel) size buf buf' rest r rs t enough k whole long gone =
      rw (parse_records-whole fuel buf buf' r t whole)
        (Parsed-whole size buf buf' rest r rs t _ long gone (k fuel (omega arith)))

  -- With fuel for its bytes, a part of the log is parsed up to its last whole record.
  pub parse_records-Parsed :
      (fuel size : ℕ) (buf rest : List ℕ) (rs : List NameRecord) (t : T)
      → length buf ≤ fuel
      → AllNames size rs
      → buf ++ rest ≡ log_bytes swap rs
      → Parsed swap whitelist size buf rest rs t (parse_records fuel swap whitelist buf t)
  unfolding log_bytes next_record
  parse_records-Parsed fuel size [] rest [] t enough fine e =
      Parsed-cut fuel size [] rest [] t refl fine e tt
  parse_records-Parsed fuel size (b ∷ bs) rest [] t enough fine e = absurd cc
  parse_records-Parsed fuel size buf rest (r ∷ rs) t enough fine e =
      elim (next_record-part swap r buf rest (log_bytes swap rs) fine.0 fine.1 e) [
        | inl (stop, short) ↦ Parsed-cut fuel size buf rest (r ∷ rs) t stop fine e short
        | inr (buf', whole, left, long, gone) ↦
            parse_some fuel size buf buf' rest r rs t enough
              (λ f few.
                parse_records-Parsed f size buf' rest rs (add_record whitelist t r) few fine.3 left)
              whole long gone
      ]
