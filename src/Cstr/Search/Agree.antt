-- ===== src/Cstr/Search/Agree.antt =====
-- The three searches of c_utils/cstr.c against each other.
use tiny_utils.Base.{ℕ, ◌≤◌, ◌<◌, ◌≡◌, List, length, get_or, some}
use tiny_utils.Cstr.Memory.{Cstr, IsValid}
use tiny_utils.Cstr.Search.Spec.{FindsFirst-unique}
use tiny_utils.Cstr.Search.Sunday.{search_max_len, sunday_search_first}
use tiny_utils.Cstr.Search.Sunday.Shift.{IsAscii}
use tiny_utils.Cstr.Search.Sunday.First.{sunday_search_first-FindsFirst}
use tiny_utils.Cstr.Search.Kmp.{kmp_search_first}
use tiny_utils.Cstr.Search.Kmp.First.{kmp_search_first-FindsFirst}
use tiny_utils.Cstr.Search.BoyerMoore.{boyer_moore_search_first}
use tiny_utils.Cstr.Search.BoyerMoore.First.{boyer_moore_search_first-FindsFirst}

-- On a valid string of bytes below 128, the final byte included, and for a pattern of 1 to 255 such
-- bytes, the KMP, the Boyer-Moore and the Sunday search return the same, whatever the arrays `shift_table`
-- and `suffix` hold before.
searches_agree :
    (table suffix : List ℕ) (c : Cstr) (str : List ℕ) (begin : ℕ)
    → IsValid c
    → ((k : ℕ) → k ≤ c.used → get_or c.bytes k 0 < 128)
    → IsAscii str
    → length table ≡ search_max_len
    → length suffix ≡ length str
    → 0 < length str
    → length str < search_max_len
    → (kmp_search_first table (some c) (some str) begin
        ≡ sunday_search_first (some c) (some str) begin)
      × (boyer_moore_search_first suffix (some c) (some str) begin
          ≡ sunday_search_first (some c) (some str) begin)
searches_agree table suffix c str begin v ascii a wide size nonempty short =
    let sunday = sunday_search_first-FindsFirst c str begin v ascii a nonempty short in
    (
      FindsFirst-unique str c.bytes c.used begin _ _
          (kmp_search_first-FindsFirst table c str begin v wide nonempty short) sunday,
      FindsFirst-unique str c.bytes c.used begin _ _
          (boyer_moore_search_first-FindsFirst suffix c str begin v ascii a size nonempty short)
          sunday,
    )
