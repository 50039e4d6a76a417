-- ===== src/Fallback/Table.antt =====
-- pageSizeTable of rawclient.go: the page size that a path's fetches start at. Times are nanoseconds.
use sonar_migration_tool.Common.{
  ℕ, ◌+◌, Bool, true, false, not, none, some, String, str_eq, ltb, leb, ◌==◌, if◌then◌else◌, ◌||◌,
  ◌&&◌,
}
use sonar_migration_tool.Fallback.Sizes.{next_smaller_page_size}

abbrev pub fast_fallback_memory : ℕ
fast_fallback_memory = 300_000_000_000

-- learnedPageSize
pub record LearnedPageSize : Type 0 where
  pub sticky : ℕ
  pub fast : ℕ
  pub fast_expires : ℕ

-- pageSizeTable: a path that is not in the map reads as the zero value.
abbrev pub PageSizeTable : Type 0
PageSizeTable = String → LearnedPageSize

abbrev pub new_page_size_table : PageSizeTable
new_page_size_table path = record { sticky = 0; fast = 0; fast_expires = 0 }

abbrev pub size_for_learned : LearnedPageSize → ℕ → ℕ → ℕ
size_for_learned l requested now =
    let size = if ltb 0 l.sticky && ltb l.sticky requested then l.sticky else requested in
    if ltb 0 l.fast && (ltb now l.fast_expires && ltb l.fast size) then l.fast else size

-- sizeFor
unfoldable pub size_for : PageSizeTable → String → ℕ → ℕ → ℕ
size_for t path requested now = size_for_learned (t path) requested now

abbrev pub remember_learned : LearnedPageSize → ℕ → Bool → ℕ → LearnedPageSize
remember_learned l size true now =
    if l.sticky == 0 || ltb size l.sticky then record l { sticky = size } else l
remember_learned l size false now =
    if l.fast == 0 || (not (ltb now l.fast_expires) || leb size l.fast)
    then record l { fast = size; fast_expires = now + fast_fallback_memory }
    else l

-- remember
unfoldable pub remember : PageSizeTable → String → ℕ → Bool → ℕ → PageSizeTable
remember t path size sticky now other =
    if str_eq path other then remember_learned (t path) size sticky now else t other

abbrev pub sticky_size : ℕ → ℕ
sticky_size slow_failed_at = elim (next_smaller_page_size slow_failed_at) [
  | none ↦ slow_failed_at
  | some below ↦ below
]

-- rememberFallback; a `slow_failed_at` of 0 means that no size failed slowly.
unfoldable pub remember_fallback : PageSizeTable → String → ℕ → ℕ → ℕ → PageSizeTable
unfolding remember
remember_fallback t path size slow_failed_at now =
    if slow_failed_at == 0
    then remember t path size false now
    else let sticky = sticky_size slow_failed_at in
      let t' = remember t path sticky true now in
      if ltb size sticky then remember t' path size false now else t'
