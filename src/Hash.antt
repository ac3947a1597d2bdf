-- ===== src/Hash.antt =====
-- oslib/src/hash.c: a chained hash table. A chain is a list of entries, a pointer to a link of it
-- (`p_entry`) is the row and the number of entries before the link, and a value is a pointer, with
-- 0 for NULL. The table keeps a key as the bytes that it points to: with `HASH_SetNp` these are the
-- caller's own, which it must leave alone while the entry stands. `strnicmp`, which the lower-case
-- calls use, is a parameter, since it is that of oslib/src/cstring.c or of the C library: whether it
-- returns 0 on two keys of one length. The pool's allocations succeed, and `entry_buf` is not NULL.
pub mod Calc
pub mod Chain
pub mod Same
pub mod Rows
pub mod Link
pub mod Laws
pub mod Iterate
pub mod Create
mod Tests
use Prim.Native.Nat.{bit_and}
use zhangxy.Base.{
  ℕ, zero, suc, ◌+◌, ◌-◌, ◌*◌, ◌/◌, ◌%◌, ◌^◌, ◌≤◌, ◌<◌, min, ◌≡◌, refl, sym, ap, ap₂, ◌∙◌, ◌≢◌, ◌↔◌,
  ◌⊎◌, inl, inr, Bool, true, false, not, ◌&&◌, ◌||◌, Option, none, some, List, [], ◌∷◌, ◌++◌, map,
  append-nil, append_assoc, arith, ltb, leb, ◌==◌, bool_eq, if◌then◌else◌, ltb→lt, lt→ltb, le→ltb,
  leb→le, ==_iff, Bool-cases, Option-cases, le_cases, u32_add, u32_sub, length, get_elem?, get_or,
  set, take, drop, replicate, length-append, length-take, length-drop, length-set, length-replicate,
  take-nil, drop-nil, take_all, drop_all, take-append-drop, take-append_le, take-append_ge,
  drop-append_le, take-append_self, drop-append_self, drop-append_ge, drop-take, take-take,
  drop-drop, overwrite, length-overwrite,
}

abbrev pub multiplier : ℕ
multiplier = 33

-- `HASH_KEY_TYPE_STRING`, `(unsigned)-1`
abbrev pub key_type_string : ℕ
key_type_string = 2 ^ 32 - 1

-- `tolower` on a byte.
unfoldable pub to_lower : ℕ → ℕ
to_lower c = if leb b'A' c && leb c b'Z' then c + 32 else c

-- The bytes in front of the first NUL: what `strlen` and the `*p` loops read.
unfoldable pub c_string : List ℕ → List ℕ
c_string [] = []
c_string (c ∷ cs) = if c == 0 then [] else c ∷ c_string cs

-- The bytes of a key at `mem`, for either kind of `keylen`.
unfoldable pub key_bytes : List ℕ → ℕ → List ℕ
unfolding c_string
key_bytes mem keylen = if keylen == key_type_string then c_string mem else take keylen mem

-- One round of each hashing loop, on `uint32_t`.
abbrev pub hash_step : ℕ → ℕ → ℕ
hash_step hash c = (hash * multiplier + c) % 2 ^ 32

unfoldable pub hash_bytes : ℕ → List ℕ → ℕ
hash_bytes hash [] = hash
hash_bytes hash (c ∷ cs) = hash_bytes (hash_step hash c) cs

pub calc : ℕ → List ℕ → ℕ → ℕ
calc hash mem keylen = hash_bytes hash (key_bytes mem keylen)

-- The hash, and the lowered copy that goes to `result`.
pub calc_to_lower : ℕ → List ℕ → ℕ × List ℕ
calc_to_lower hval [] = (hval, [])
calc_to_lower hval (c ∷ cs) =
    let lower = to_lower c in
    let rest = calc_to_lower (hash_step hval lower) cs in (rest.0, lower ∷ rest.1)

pub record Entry : Type 0 where
  pub key : List ℕ
  pub hash : ℕ
  pub keylen : ℕ
  pub value : ℕ

pub record HashTable : Type 0 where
  pub table : List (List Entry)
  pub count : ℕ
  pub rows : ℕ

-- The `do … while` that sizes the table; `none` when the fuel runs out.
pub grow : ℕ → ℕ → ℕ → Option ℕ
grow zero table_size size = none
grow (suc fuel) table_size size =
    let doubled : ℕ = table_size * 2 % 2 ^ 32 in
    let rest = grow fuel doubled size in if ltb doubled size then rest else some doubled

-- The table: the product of `POOL_Calloc` wraps, with pointers of four bytes.
unfoldable pub sized_table : ℕ → HashTable
sized_table table_size = record {
  table = replicate (table_size * 4 % 2 ^ 32 / 4) [];
  count = 0;
  rows = table_size - 1;
}

-- `HASH_Create`
pub create : ℕ → ℕ → Option HashTable
create fuel size = elim (grow fuel 8 size) [
  | none ↦ none
  | some table_size ↦ some (sized_table table_size)
]

-- What `find_entry` looks for, after it has settled the hash and the length.
pub record Query : Type 0 where
  pub key : List ℕ
  pub hash : ℕ
  pub keylen : ℕ

-- The caller's hash is taken if it is given and not 0.
abbrev pub settle_hash : ℕ → List ℕ → Bool → ℕ
settle_hash given key lower =
    if not (given == 0) then given else hash_bytes 0 (if lower then map to_lower key else key)

pub settle : List ℕ → ℕ → ℕ → Bool → Query
settle mem keylen hval lower =
    let key = key_bytes mem keylen in
    record { key = key; hash = settle_hash hval key lower; keylen = length key }

-- `memcmp(a, b, n) == 0` for keys of one length `n`.
unfoldable pub memcmp_eq : List ℕ → List ℕ → Bool
memcmp_eq [] [] = true
memcmp_eq (x ∷ xs) (y ∷ ys) = x == y && memcmp_eq xs ys
memcmp_eq _ _ = false

module _ (strnicmp_eq : List ℕ → List ℕ → Bool) where
  -- The test of the search loop.
  unfoldable pub matches : Bool → Query → Entry → Bool
  matches lower q e =
      e.hash == q.hash
      && e.keylen == q.keylen
      && (lower && strnicmp_eq e.key q.key || not lower && memcmp_eq e.key q.key)

  -- The search loop: the number of links that it follows.
  unfoldable pub find_depth : Bool → Query → List Entry → ℕ
  find_depth lower q [] = 0
  find_depth lower q (e ∷ chain) =
      let further = suc (find_depth lower q chain) in if matches lower q e then 0 else further

  -- `&ht->table[hash & ht->rows]`
  unfoldable pub chain_at : HashTable → Query → List Entry
  chain_at ht q = get_or ht.table (bit_and q.hash ht.rows) []

  abbrev pub put_chain : HashTable → Query → List Entry → ℕ → HashTable
  put_chain ht q chain count = record ht {
    table = set ht.table (bit_and q.hash ht.rows) chain;
    count = count;
  }

  -- `find_entry`: the table, and the link that it returns as its depth in the query's chain.
  unfoldable pub find_entry : HashTable → Query → Bool → ℕ → HashTable × ℕ
  unfolding chain_at
  find_entry ht q lower val =
      let chain = chain_at ht q in
      let depth = find_depth lower q chain in
      elim (get_elem? chain depth) [
        | some e ↦ (ht, depth)
        | none ↦ if val == 0 then (ht, depth) else (
          put_chain ht q
              (take depth chain
                ++ (record { key = q.key; hash = q.hash; keylen = q.keylen; value = val } ∷ []))
              (u32_add ht.count 1),
          depth,
        )
      ]

  -- `HASH_Get` and `HASH_GetLower`; `hval` is `*hval`, or 0 where the pointer is NULL.
  pub get : HashTable → List ℕ → ℕ → ℕ → Bool → ℕ
  get ht mem keylen hval lower =
      let q = settle mem keylen hval lower in
      let (ht', depth) = find_entry ht q lower 0 in
      elim (get_elem? (chain_at ht' q) depth) [ none ↦ 0 | some e ↦ e.value ]

  -- `hash_set`, behind `HASH_Set`, `HASH_SetLower`, `HASH_SetNp` and `HASH_SetNpLower`.
  unfoldable pub hash_set : HashTable → Query → Bool → ℕ → HashTable
  hash_set ht q lower value =
      let (ht', depth) = find_entry ht q lower value in
      let chain = chain_at ht' q in
      elim (get_elem? chain depth) [
        | none ↦ ht'
        | some e ↦
            if value == 0
            then put_chain ht' q (take depth chain ++ drop (depth + 1) chain) (u32_sub ht'.count 1)
            else put_chain ht' q (set chain depth (record e { value = value })) ht'.count
      ]

  pub set_value : HashTable → List ℕ → ℕ → ℕ → ℕ → Bool → HashTable
  set_value ht mem keylen hval value lower = hash_set ht (settle mem keylen hval lower) lower value

pub count_entries : HashTable → ℕ
count_entries ht = ht.count

-- An iterator is a row and what is left of its chain; with none left it is NULL.
pub record HashIterator : Type 0 where
  pub index : ℕ
  pub entry : List Entry

-- The loop that looks for the next row with an entry, over the rows from `index` on.
unfoldable pub scan_rows : ℕ → List (List Entry) → HashIterator
scan_rows index [] = record { index = index; entry = [] }
scan_rows index ([] ∷ chains) = scan_rows (index + 1) chains
scan_rows index ((e ∷ chain) ∷ chains) = record { index = index; entry = e ∷ chain }

pub it_first : HashTable → HashIterator
it_first ht = scan_rows 0 (take (ht.rows + 1) ht.table)

unfoldable pub it_next : HashTable → HashIterator → HashIterator
it_next ht it = elim (drop 1 it.entry) [
  | [] ↦ scan_rows (it.index + 1) (drop (it.index + 1) (take (ht.rows + 1) ht.table))
  | e ∷ chain ↦ record it { entry = e ∷ chain }
]

-- `HASH_ItThis`; the caller has seen that the iterator is not NULL.
pub it_this : HashIterator → Option ℕ
it_this it = elim it.entry [ [] ↦ none | e ∷ chain ↦ some e.value ]
