-- ===== src/Util/Names/Chunks.antt =====
-- The loop of darshan_log_get_filtered_namehash over chunks of the region of names.
use darshan.Prelude.{
  ℕ, zero, suc, ◌-◌, ◌<◌, ◌≡◌, refl, ap, ◌∙◌, sym, Bool, true, false, Option, some, List, [], ◌∷◌,
  ◌++◌, arith, inl, inr, length, take, drop, Bool-cases, ◌==◌, length-take_min, length-take_short,
  length-take_le, drop-length_le, take-drop, length-drop, ==_iff,
}
use mathlib.Core.List.{append_assoc, append-nil}
use darshan.Prelude.Hash.{Uthash}
use darshan.Core.State.{NameRecord}
use darshan.Util.Names.{Read, names, read_chunks, get_namerecs}
use darshan.Util.Names.Parse.{
  log_bytes, length-log_bytes, AllNames, IsCut, add_all, add_all-append, parse_records-Parsed,
}

-- What the reading of a region promises: each call copies what is left of the region up to the
-- length asked for, and one that copies all of it leaves the rest to the next.
pub record RegionReader (S : Type 0) (dzread : Read S) : Type 1 where
  pub IsReadable : S → Type 0
  pub remaining : S → List ℕ
  pub next : S → ℕ → S
  pub copied :
      (s : S) (n : ℕ) → IsReadable s → 0 < n → dzread s n ≡ some (take n (remaining s), next s n)
  pub kept :
      (s : S) (n : ℕ)
      → IsReadable s
      → 0 < n
      → length (take n (remaining s)) ≡ n
      → IsReadable (next s n) × (remaining (next s n) ≡ drop n (remaining s))

-- The records left are none, or the first of them has more bytes than are left of it.
cut-below :
    (swap : Bool) (size : ℕ) (left : List ℕ) (rest : List ℕ) (todo : List NameRecord)
    → 0 < size
    → AllNames size todo
    → IsCut left todo
    → left ++ rest ≡ log_bytes swap todo
    → length left < size
unfolding log_bytes
cut-below swap size [] rest [] pos fine cut e = pos
cut-below swap size (b ∷ bs) rest [] pos fine cut e = absurd cc
cut-below swap size left rest (r ∷ rs) pos fine cut e = omega (arith, fine.2, cut)

cut-end :
    (swap : Bool) (left : List ℕ) (todo : List NameRecord)
    → IsCut left todo
    → left ++ [] ≡ log_bytes swap todo
    → (todo ≡ []) × (left ≡ [])
unfolding log_bytes
cut-end swap left [] cut e = (refl, sym (append-nil left) ∙ e)
cut-end swap left (r ∷ rs) cut e =
    let same : left ≡ log_bytes swap (r ∷ rs) = sym (append-nil left) ∙ e in
    absurd (omega (arith, ap length same, length-log_bytes swap r rs, cut))

module _ {T S : Type 0} ⦃h : Uthash NameRecord T⦄ {dzread : Read S} (reader : RegionReader S dzread)
    (swap : Bool) (whitelist : Option (List ℕ)) (size : ℕ) where
  -- A round of the loop, once the chunk has been read and parsed.
  round_full :
      (fuel : ℕ) (s : S) (left : List ℕ) (t : T)
      → reader.IsReadable s
      → length left < size
      → let req = size - length left in
        let chunk = take req (reader.remaining s) in
        let out = get_namerecs swap whitelist (left ++ chunk) t in
        (length chunk == req) ≡ true
        → read_chunks dzread (suc fuel) size swap whitelist s left t
          ≡ read_chunks dzread fuel size swap whitelist
              (reader.next s req)
              (drop out.1 (left ++ chunk))
              out.0
  unfolding read_chunks
  round_full fuel s left t ok below full =
      rw (read_chunks, reader.copied s (size - length left) ok (omega arith), full) refl

  round_last :
      (fuel : ℕ) (s : S) (left : List ℕ) (t : T)
      → reader.IsReadable s
      → length left < size
      → let req = size - length left in
        let chunk = take req (reader.remaining s) in
        let out = get_namerecs swap whitelist (left ++ chunk) t in
        (length chunk == req) ≡ false
        → drop out.1 (left ++ chunk) ≡ []
        → read_chunks dzread (suc fuel) size swap whitelist s left t ≡ names out.0
  unfolding read_chunks
  round_last fuel s left t ok below short gone =
      rw (read_chunks, reader.copied s (size - length left) ok (omega arith), short, gone) refl

  -- The names of the log, whatever the places where the chunks end.
  pub read_chunks-all :
      (fuel : ℕ) (s : S) (left : List ℕ) (rs : List NameRecord) (t : T)
      → reader.IsReadable s
      → 0 < size
      → AllNames size rs
      → left ++ reader.remaining s ≡ log_bytes swap rs
      → length left < size
      → length (reader.remaining s) < fuel
      → read_chunks dzread fuel size swap whitelist s left t ≡ names (add_all whitelist t rs)
  unfolding get_namerecs
  read_chunks-all zero s left rs t ok pos fine e below enough = absurd (omega arith)
  read_chunks-all (suc fuel) s left rs t ok pos fine e below enough =
      let req = size - length left in
      let rem = reader.remaining s in
      let chunk = take req rem in
      let buf = left ++ chunk in
      let whole : buf ++ drop req rem ≡ log_bytes swap rs =
        append_assoc left chunk (drop req rem) ∙ ap (left ++◌) (take-drop req rem) ∙ e in
      let p =
        parse_records-Parsed swap whitelist (length buf) size buf (drop req rem) rs t (omega arith)
          fine whole in
      let rest = add_all-append whitelist t p.done p.todo in
      elim (Bool-cases (length chunk == req)) [
        | inl full ↦
            let full' = (==_iff (length chunk) req).0 full in
            let (ok', after) = reader.kept s req ok (omega arith) full' in
            let shrunk = length-drop req rem (omega (arith, length-take_le req rem)) in
            let k =
              read_chunks-all fuel (reader.next s req) (drop _ buf) p.todo _ ok' pos p.fine
                (rw after p.left) (cut-below swap size _ _ p.todo pos p.fine p.cut p.left)
                (rw after (omega arith)) in
            round_full fuel s left t ok below full
            ∙ k
            ∙ ap names (
                ap (λ u. add_all whitelist u p.todo) p.added
                ∙ sym rest
                ∙ ap (add_all whitelist t) (sym p.parts))
        | inr short ↦
            let few : length chunk < req = ground (arith, length-take_min req rem) in
            let none_left = drop-length_le req rem (omega (arith, length-take_short req rem few)) in
            let (all_done, gone) = cut-end swap _ p.todo p.cut (rw none_left at p.left) in
            round_last fuel s left t ok below short gone
            ∙ ap names (
                p.added
                ∙ ap (add_all whitelist t)
                    (sym (append-nil p.done) ∙ ap (p.done ++◌) (sym all_done) ∙ sym p.parts))
      ]
