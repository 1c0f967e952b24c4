-- ===== src/Util/Names.antt =====
-- The name records of a log: darshan_log_get_namerecs, darshan_log_get_filtered_namehash and
-- darshan_log_get_namehash of darshan-util/darshan-logutils.c. Allocation is taken to succeed. The
-- table keeps of a reference its name record, under its identifier.
pub mod Parse
pub mod Chunks
pub mod RoundTrip
use darshan.Prelude.{
  ℕ, zero, suc, ◌+◌, ◌-◌, ◌*◌, ◌≡◌, Bool, true, false, not, ◌&&◌, ◌||◌, Option, none, some, List,
  [], ◌∷◌, ◌++◌, ◌==◌, leb, if◌then◌else◌, length, take, drop,
}
use mathlib.Core.Option
use darshan.Prelude.Hash.{Uthash}
use darshan.Core.State.{Bytes, NameRecord}
use darshan.Core.Names.{is_empty}
use darshan.Util.Ids.{read_id}

-- `strnlen` against the end of the buffer: the bytes before the terminator and those after it, or
-- none where there is no terminator.
unfoldable pub split_name : List ℕ → Option (Bytes × List ℕ)
split_name [] = none
split_name (zero ∷ bs) = some ([], bs)
split_name (suc b ∷ bs) = Option.map (λ p. (suc b ∷ p.0, p.1)) (split_name bs)

-- The record at the front of the buffer and the bytes after it, when the whole record is there.
unfoldable pub next_record : Bool → List ℕ → Option (NameRecord × List ℕ)
unfolding split_name
next_record swap buf =
    if leb (8 + 1) (length buf)
    then Option.map (λ p. (record { id = read_id swap (take 8 buf); name = p.0 }, p.1))
        (split_name (drop 8 buf))
    else none

unfoldable pub whitelist_filter : ℕ → List ℕ → Bool
whitelist_filter val [] = false
whitelist_filter val (w ∷ ws) = w == val || whitelist_filter val ws

-- No list is a NULL `whitelist`.
unfoldable pub is_wanted : Option (List ℕ) → ℕ → Bool
is_wanted none id = true
is_wanted (some ws) id = whitelist_filter id ws

-- What one call of the region's reader gives: the bytes it copied, or an error.
abbrev pub Read : Type 0 → Type 0
Read S = S → ℕ → Option (Bytes × S)

-- How the reading of the names ends: with a table, with -1, at the assertion that no bytes are left
-- over, or not within the fuel.
pub data ReadNames (T : Type 0) : Type 0 where
  names : T → ReadNames T
  failed : T → ReadNames T
  assertion_failed : ReadNames T
  out_of_fuel : ReadNames T

-- DARSHAN_DEF_COMP_BUF_SZ
abbrev pub def_comp_buf_sz : ℕ
def_comp_buf_sz = 1048576

module _ {T : Type 0} ⦃h : Uthash NameRecord T⦄ where
  -- A record is added if its identifier is wanted and new, and replaces one that has no name.
  -- The replaced record is freed, and with it the identifier that is the item's key.
  unfoldable pub add_record : Option (List ℕ) → T → NameRecord → T
  add_record whitelist t r = elim (h.find t r.id) [
    | none ↦ if is_wanted whitelist r.id then h.add t r.id r else t
    | some ref ↦ if is_empty ref.name && not (is_empty r.name) then h.store_freed t r.id r else t
  ]

  -- The table after the records of the buffer that are whole, and the bytes they took; each takes
  -- nine bytes at least, so that the buffer's length is fuel enough.
  unfoldable pub parse_records : ℕ → Bool → Option (List ℕ) → List ℕ → T → T × ℕ
  unfolding add_record next_record
  parse_records zero swap whitelist buf t = (t, 0)
  parse_records (suc fuel) swap whitelist buf t = elim (next_record swap buf) [
    | none ↦ (t, 0)
    | some (r, rest) ↦
        let (t', processed) = parse_records fuel swap whitelist rest (add_record whitelist t r) in
        (t', 8 + length r.name + 1 + processed)
  ]

  unfoldable pub get_namerecs : Bool → Option (List ℕ) → List ℕ → T → T × ℕ
  unfolding parse_records
  get_namerecs swap whitelist buf t = parse_records (length buf) swap whitelist buf t

  -- The loop over chunks; `left` is the leftover at the start of the buffer of `size` bytes.
  unfoldable pub read_chunks :
      {S : Type 0} → Read S → ℕ → ℕ → Bool → Option (List ℕ) → S → List ℕ → T → ReadNames T
  unfolding get_namerecs
  read_chunks dzread zero size swap whitelist s left t = out_of_fuel
  read_chunks dzread (suc fuel) size swap whitelist s left t =
      let read_req_sz = size - length left in
      elim (dzread s read_req_sz) [
        | none ↦ failed t
        | some (chunk, s') ↦
            let buf = left ++ chunk in
            let (t', processed) = get_namerecs swap whitelist buf t in
            let left' = drop processed buf in
            elim (length chunk == read_req_sz) [
              | true ↦ read_chunks dzread fuel size swap whitelist s' left' t'
              | false ↦ elim (length left') [ zero ↦ names t' | suc n ↦ assertion_failed ]
            ]
      ]

  -- `map_len` is `fd->name_map.len`: without any name record the table is NULL.
  unfoldable pub get_filtered_namehash :
      {S : Type 0} → Read S → ℕ → ℕ → Bool → T → Option (List ℕ) → S → ReadNames T
  unfolding read_chunks
  get_filtered_namehash dzread fuel map_len swap t whitelist s = elim (map_len == 0) [
    | true ↦ names h.empty
    | false ↦ read_chunks dzread fuel (def_comp_buf_sz * 2) swap whitelist s [] t
  ]

  unfoldable pub get_namehash : {S : Type 0} → Read S → ℕ → ℕ → Bool → T → S → ReadNames T
  unfolding get_filtered_namehash
  get_namehash dzread fuel map_len swap t s =
      get_filtered_namehash dzread fuel map_len swap t none s
