-- ===== src/ThreadList/Tests.antt =====
-- A list with its head at 0, its tail at 1 and the threads 10 and 11; thread 12 is on no list.
use petrel_os.Base.{ℕ, ◌+◌, refl, none, some, [], ◌∷◌, arith, ltb, ◌==◌, if◌then◌else◌}
use petrel_os.Base.Windows.{window}
use petrel_os.ThreadList.{
  Links, ThreadList, threadlist_addtail, threadlist_remhead, threadlist_remove,
}
use petrel_os.ThreadList.Places.{IsLinked}
use petrel_os.ThreadList.Sequence.{IsList, IsOff, Added, threadlist_addtail-Added}
use petrel_os.ThreadList.Taking.{
  TakeResult, RemoveResult, at_head, threadlist_remhead-TakeResult, threadlist_remove-RemoveResult,
}

abbrev place : ℕ → ℕ
place k = if k == 0 then 0 else if k == 3 then 1 else k + 9

abbrev links : Links
links = record {
  tln_prev = λ x.
      if x == 10 then some 0 else if x == 11 then some 10 else if x == 1 then some 11 else none;
  tln_next = λ x.
      if x == 0 then some 10 else if x == 10 then some 11 else if x == 11 then some 1 else none;
  tln_self = λ x. if ltb x 2 then none else some x;
}

abbrev two : ThreadList
two = record { tl_head = 0; tl_tail = 1; tl_count = 2 }

two-IsLinked : IsLinked links two place
two-IsLinked = record {
  starts = refl;
  ends = refl;
  nexts = λ k low. ground arith;
  prevs = λ k low. ground arith;
  first = refl;
  last = refl;
  selves = λ k low high. ground arith;
  distinct = λ i j hi hj e. ground arith;
}

two-IsList : IsList links two (10 ∷ 11 ∷ [])
unfolding window
two-IsList = record {
  place = place;
  linked = two-IsLinked;
  shows = refl;
  representable = omega arith;
}

twelve-IsOff : IsOff links 12
twelve-IsOff = record { no_prev = refl; no_next = refl; self = refl }

threadlist_addtail-Added_example : Added (10 ∷ 11 ∷ 12 ∷ []) (threadlist_addtail links two 12)
threadlist_addtail-Added_example = threadlist_addtail-Added 12 two-IsList twelve-IsOff (omega arith)

threadlist_remhead-TakeResult_example :
    TakeResult links two (10 ∷ 11 ∷ []) at_head (threadlist_remhead links two)
threadlist_remhead-TakeResult_example = threadlist_remhead-TakeResult (10 ∷ 11 ∷ []) two-IsList

threadlist_remove-RemoveResult_example : RemoveResult 11 (10 ∷ []) (threadlist_remove links two 11)
threadlist_remove-RemoveResult_example = threadlist_remove-RemoveResult 11 (10 ∷ []) [] two-IsList
