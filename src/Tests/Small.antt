-- ===== src/Tests/Small.antt =====
-- Ids as text, a pool, and the spec of an engine.
use libbruce.Base.{◌≡◌, refl, some, [], ◌∷◌, ◌++◌, arith}
use libbruce.Memory.{NodeId}
use libbruce.Ids.{print_id, parse_id}
use libbruce.Ids.Text.{parse_id-print_id}
use libbruce.Pool.{Pool, Range}
use libbruce.Registry.{Text, parse_options, find_from, set_option}

abbrev an_id : NodeId
an_id = 0 ∷ 171 ∷ 255 ∷ []

parse_id-print_id_example : parse_id 3 (print_id an_id ++ 10 ∷ []) ≡ some (an_id, 10 ∷ [])
parse_id-print_id_example =
    parse_id-print_id an_id (omega arith, (omega arith, (omega arith, tt))) (10 ∷ [])

-- A pool with a page that is nearly used up, and a range at the start of the page.
abbrev used_pool : Pool
used_pool = record {
  pages = [];
  page = record { number = 1; bytes = 262144 };
  offset = 262000;
  fresh = 2;
}

abbrev old_range : Range
old_range = record { page = record { number = 1; bytes = 262144 }; from = 0; bytes = 100 }

-- ";a=1;b=2": the value of the first option runs into the second.
abbrev two_options : Text
two_options = 59 ∷ 97 ∷ 61 ∷ 49 ∷ 59 ∷ 98 ∷ 61 ∷ 50 ∷ []

value_runs_on :
    parse_options 9 two_options (some 0) []
    ≡ (97 ∷ [], 49 ∷ 59 ∷ 98 ∷ 61 ∷ []) ∷ (98 ∷ [], 50 ∷ []) ∷ []
unfolding parse_options find_from set_option
value_runs_on = refl
