-- ===== src/HandleTable.antt =====
-- amdgpu/handle_table.c: an array of pointers that grows by pages. A NULL entry is `none`; the length
-- of `values` is what realloc last gave.
mod Tests
pub mod Laws
use libdrm.Base.{
  ℕ, ◌-◌, Bool, Option, none, some, List, [], ◌++◌, leb, ltb, if◌then◌else◌, add32, align32, get_or,
  set, replicate, Ret, ok, err, enomem,
}

module _ (A : Type 0) where
  pub record HandleTable : Type 0 where
    pub max_key : ℕ
    pub values : List (Option A)

-- The entries after `realloc` and `memset`: the old ones, and NULL behind them.
unfoldable pub grow : {A : Type 0} → HandleTable A → ℕ → HandleTable A
grow t max_key = record {
  max_key = max_key;
  values = t.values ++ replicate (max_key - t.max_key) none;
}

module _ {A : Type 0} where
  -- `entries` is the number of pointers in a page, `memory` whether realloc succeeds.
  unfoldable pub insert : ℕ → Bool → HandleTable A → ℕ → A → Ret × HandleTable A
  insert entries memory t key value =
      let max_key = align32 (add32 key 1) entries in
      let grown = grow t max_key in
      if leb t.max_key key
      then if memory
        then (ok, record grown { values = set grown.values key (some value) })
        else (err enomem, t)
      else (ok, record t { values = set t.values key (some value) })

  unfoldable pub remove : HandleTable A → ℕ → HandleTable A
  remove t key = if ltb key t.max_key then record t { values = set t.values key none } else t

  unfoldable pub lookup : HandleTable A → ℕ → Option A
  lookup t key = if ltb key t.max_key then get_or t.values key none else none

  pub fini : HandleTable A → HandleTable A
  fini t = record { max_key = 0; values = [] }
