-- ===== src/Cstr/Search/Tests.antt =====
-- Runs of the searches of c_utils/cstr.c, and the theorems at concrete strings.
use tiny_utils.Base.{
  ℕ, suc, zero, ◌≡◌, ◌≤◌, ◌<◌, refl, List, [], ◌∷◌, get_or, some, ok, arith, replicate,
  length-replicate,
}
use tiny_utils.Base.Int.{pos, ◌-ℤ◌}
use tiny_utils.Cstr.Memory.{Cstr, IsValid}
use tiny_utils.Cstr.Search.Spec.{FindsFirst, not_found}
use tiny_utils.Cstr.Search.Sunday.{search_max_len, sunday_search_first, fill_shift, scan, advance}
use tiny_utils.Cstr.Search.Sunday.First.{sunday_search_first-FindsFirst}
use tiny_utils.Cstr.Search.Kmp.{table_loop, kmp_next_table, kmp_loop, kmp_search_first}
use tiny_utils.Cstr.Search.Kmp.First.{kmp_search_first-FindsFirst}
use tiny_utils.Cstr.Search.BoyerMoore.{
  bad_char_loop, bm_bad_char_shift_table, suffix_back, suffix_loop, bm_suffix, prefix_fill,
  prefix_loop, inner_loop, bm_good_suffix_shift_table, match_back, bm_scan,
  boyer_moore_search_first,
}
use tiny_utils.Cstr.Search.BoyerMoore.First.{boyer_moore_search_first-FindsFirst}
use tiny_utils.Cstr.Search.Sunday.{cstr_find_first}
use tiny_utils.Cstr.Search.CountStr.{cstr_count_str, count_str_loop}
use tiny_utils.Cstr.Search.CountStr.Greedy.{Greedy, cstr_count_str-Greedy}

-- "banana" in 12 of 23 bytes.
abbrev banana : Cstr
banana = record {
  cap = 12;
  used = 6;
  bytes = b'b' ∷ b'a' ∷ b'n' ∷ b'a' ∷ b'n' ∷ b'a' ∷ 0 ∷ 7 ∷ 7 ∷ 7 ∷ 7 ∷ 7 ∷ 7 ∷ [];
}

abbrev nan : List ℕ
nan = b'n' ∷ b'a' ∷ b'n' ∷ []

banana-IsValid : IsValid banana
banana-IsValid = omega arith

banana_ascii : (k : ℕ) → k ≤ 6 → get_or banana.bytes k 0 < 128
banana_ascii zero h = omega arith
banana_ascii (suc zero) h = omega arith
banana_ascii (suc (suc zero)) h = omega arith
banana_ascii (suc (suc (suc zero))) h = omega arith
banana_ascii (suc (suc (suc (suc zero)))) h = omega arith
banana_ascii (suc (suc (suc (suc (suc zero))))) h = omega arith
banana_ascii (suc (suc (suc (suc (suc (suc zero)))))) h = omega arith
banana_ascii (suc (suc (suc (suc (suc (suc (suc k))))))) h = absurd (omega arith)

finds_nan : sunday_search_first (some banana) (some nan) 0 ≡ ok (pos 2)
unfolding sunday_search_first fill_shift scan advance
finds_nan = refl

finds_no_nan : sunday_search_first (some banana) (some nan) 3 ≡ ok not_found
unfolding sunday_search_first fill_shift scan advance
finds_no_nan = refl

-- What an array on the stack holds before.
abbrev garbage : List ℕ
garbage = replicate search_max_len 9

abbrev three : List ℕ
three = 9 ∷ 9 ∷ 9 ∷ []

kmp_finds_nan : kmp_search_first garbage (some banana) (some nan) 0 ≡ ok (pos 2)
unfolding kmp_search_first kmp_next_table table_loop kmp_loop
kmp_finds_nan = refl

boyer_moore_finds_nan : boyer_moore_search_first three (some banana) (some nan) 0 ≡ ok (pos 2)
unfolding boyer_moore_search_first bm_bad_char_shift_table bad_char_loop bm_good_suffix_shift_table
    bm_suffix suffix_loop suffix_back prefix_loop prefix_fill inner_loop bm_scan match_back ◌-ℤ◌
boyer_moore_finds_nan = refl

good_suffixes_of_nan : bm_good_suffix_shift_table three nan ≡ ok (2 ∷ 2 ∷ 1 ∷ [])
unfolding bm_good_suffix_shift_table bm_suffix suffix_loop suffix_back prefix_loop prefix_fill
    inner_loop
good_suffixes_of_nan = refl

sunday_search_first-FindsFirst_example :
    FindsFirst nan 6 banana.bytes 0 (sunday_search_first (some banana) (some nan) 0)
sunday_search_first-FindsFirst_example =
    sunday_search_first-FindsFirst banana nan 0 banana-IsValid banana_ascii (omega arith)
      (omega arith) (omega arith)

kmp_search_first-FindsFirst_example :
    FindsFirst nan 6 banana.bytes 0 (kmp_search_first garbage (some banana) (some nan) 0)
kmp_search_first-FindsFirst_example =
    kmp_search_first-FindsFirst garbage banana nan 0 banana-IsValid
      (length-replicate {A = ℕ} search_max_len 9) (omega arith) (omega arith)

boyer_moore_search_first-FindsFirst_example :
    FindsFirst nan 6 banana.bytes 0 (boyer_moore_search_first three (some banana) (some nan) 0)
boyer_moore_search_first-FindsFirst_example =
    boyer_moore_search_first-FindsFirst three banana nan 0 banana-IsValid banana_ascii (omega arith)
      refl (omega arith) (omega arith)

-- The two "an" of "banana" stand one behind the other, and the second is not counted.
counts_one : cstr_count_str (some banana) (some (b'a' ∷ b'n' ∷ [])) 0 ≡ ok 1
unfolding cstr_count_str count_str_loop cstr_find_first sunday_search_first fill_shift scan advance
counts_one = refl

cstr_count_str-Greedy_example :
    (n : ℕ) × (cstr_count_str (some banana) (some nan) 0 ≡ ok n) × Greedy nan banana.bytes 6 0 n
cstr_count_str-Greedy_example =
    cstr_count_str-Greedy banana nan 0 banana-IsValid banana_ascii (omega arith) (omega arith)
      (omega arith)
