-- ===== src/BinaryInfo.antt =====
-- src/binary_info_reader/bi_reader.c: the search of the table of binary information that the linker lays out in flash.
-- The words of the flash and the entry that the pointer at an address of the table leads to are
-- parameters; NULL is `none`. 0xffffffff is the -1 of an `int32_t`.
mod Scan
pub mod Search
mod Tests
use picore.Base.{
  ℕ, zero, suc, ◌+◌, ◌==◌, Bool, true, false, not, ◌&&◌, Option, none, some, if◌then◌else◌, ltb,
  add32,
}

-- The fields of `struct binary_info_descriptor` that are read, without its markers.
pub record Descriptor : Type 0 where
  pub start : ℕ
  pub end : ℕ

-- The fields of an entry that are read: of `binary_info_core_t`, of the types with an identifier, and of raw and
-- sized data. A pointer is its address.
pub record Entry : Type 0 where
  pub type_no : ℕ
  pub tag : ℕ
  pub id : ℕ
  pub value : ℕ
  pub bytes : ℕ
  pub length : ℕ

module _ (word : ℕ → ℕ) (marker_start marker_end xip_base : ℕ) where
  -- The loop of `pr_bi_desc_find` over `left` more addresses.
  abbrev pub desc_loop : ℕ → ℕ → Option Descriptor
  desc_loop zero ptr = none
  desc_loop (suc left) ptr =
      let rest = desc_loop left (ptr + 4) in
      if (word ptr == marker_start) && (word (ptr + 16) == marker_end)
      then some (record { start = word (ptr + 4); end = word (ptr + 8) })
      else rest

  abbrev pub desc_find : Option Descriptor
  desc_find = desc_loop 128 xip_base

-- `pr_bi_next` and `pr_bi_get`
abbrev pub is_inside : Descriptor → ℕ → Bool
is_inside desc state = not (state == 0) && ltb state desc.end

abbrev pub next : Descriptor → ℕ → ℕ
next desc state = if is_inside desc state then add32 state 4 else 0

abbrev pub has_type : ℕ → ℕ → Entry → Bool
has_type type_no tag c = (c.type_no == type_no) && (c.tag == tag)

module _ (entry_at : ℕ → Option Entry) where
  abbrev pub get : Descriptor → ℕ → Option Entry
  get desc state = if is_inside desc state then entry_at state else none

  -- The loop of `pr_bi_find` on fuel: the entry and the state stored.
  unfoldable pub find_loop : ℕ → Descriptor → ℕ → ℕ → ℕ → Option (Option Entry × ℕ)
  find_loop zero desc type_no tag state = none
  find_loop (suc fuel) desc type_no tag state =
      let rest = find_loop fuel desc type_no tag (next desc state) in
      if state == 0 then some (none, 0) else (elim (get desc state) [
        | none ↦ rest
        | some c ↦ if has_type type_no tag c then some (some c, next desc state) else rest
      ])

  abbrev pub find : ℕ → Descriptor → ℕ → ℕ → ℕ → Option (Option Entry × ℕ)
  find fuel desc state type_no tag =
      find_loop fuel desc type_no tag (if state == 0 then desc.start else state)

  -- The result NULL is `none`; the state stored goes with it.
  abbrev pub find_raw : ℕ → Descriptor → ℕ → ℕ → ℕ → Option (Option ℕ × ℕ)
  find_raw fuel desc state type_no tag = elim (find fuel desc state type_no tag) [
    | none ↦ none
    | some (found, state') ↦ some (elim found [ none ↦ none | some bi ↦ some bi.bytes ], state')
  ]

  -- With the length stored, if it is.
  abbrev pub find_sized_data : ℕ → Descriptor → ℕ → ℕ → ℕ → Option (Option (ℕ × ℕ) × ℕ)
  find_sized_data fuel desc state type_no tag = elim (find fuel desc state type_no tag) [
    | none ↦ none
    | some (found, state') ↦
        some (elim found [ none ↦ none | some bi ↦ some (bi.bytes, bi.length) ], state')
  ]

  -- The loop of `pr_bi_find_int` and `pr_bi_find_string`: the value of the entry, if there is one, and
  -- the state stored.
  unfoldable pub id_loop : ℕ → ℕ → Descriptor → ℕ → ℕ → ℕ → ℕ → Option (Option ℕ × ℕ)
  id_loop zero fuel desc state type_no tag id = none
  id_loop (suc rounds) fuel desc state type_no tag id = elim (find fuel desc state type_no tag) [
    | none ↦ none
    | some (found, state') ↦ elim found [
      | none ↦ some (none, state')
      | some bi ↦
          let rest = id_loop rounds fuel desc state' type_no tag id in
          if bi.id == id
          then some (some bi.value, state')
          else (if state' == 0 then some (none, state') else rest)
    ]
  ]

  -- A caller without a state gives 0, and drops the one that is stored.
  abbrev pub find_string : ℕ → Descriptor → ℕ → ℕ → ℕ → ℕ → Option (Option ℕ × ℕ)
  find_string fuel desc state type_no tag id = id_loop fuel fuel desc state type_no tag id

  abbrev pub find_int : ℕ → Descriptor → ℕ → ℕ → ℕ → ℕ → Option (ℕ × ℕ)
  find_int fuel desc state type_no tag id = elim (id_loop fuel fuel desc state type_no tag id) [
    | none ↦ none
    | some (found, state') ↦ some (elim found [ none ↦ 4294967295 | some value ↦ value ], state')
  ]

  -- `pr_binary_info_program_name` and its two kin, which differ in `id`, and `pr_build_id_get` of
  -- src/build_id/build_id.c, which also has another tag; `found` is what `pr_bi_desc_find` returns.
  abbrev pub rp_string : ℕ → Option Descriptor → ℕ → ℕ → ℕ → Option (Option ℕ)
  rp_string fuel none type_no tag id = some none
  rp_string fuel (some desc) type_no tag id = elim (find_string fuel desc 0 type_no tag id) [
    | none ↦ none
    | some (found, state) ↦ some found
  ]

  abbrev pub build_id_get : ℕ → Option Descriptor → ℕ → ℕ → Option (Option ℕ)
  build_id_get fuel found type_no tag_pr = rp_string fuel found type_no tag_pr 0xb22c71f9
