-- ===== src/Message/Tests.antt =====
-- Receivers and messages (src/sidlist.c, src/message.c) at small concrete inputs.
use libevlite.Base.{◌≡◌, refl, [], ◌∷◌, length, arith, true, false, none, some, ◌==◌}
use libevlite.Message.SidList.{SidList}
use libevlite.Message.SidListLaws.{IsValid}
use libevlite.Message.Defs.{Message, is_complete}
use libevlite.Message.Laws.{receivers, report, is_complete_lem}

-- The ids 5, 6 and 7 in a block of three.
abbrev three : SidList
three = record { count = 3; size = 3; entries = 5 ∷ 6 ∷ 7 ∷ [] }

three-IsValid : IsValid three
three-IsValid = record {
  stored = refl;
  fits = omega arith;
  word = omega arith;
  positive = omega arith;
}

abbrev to_three : Message
to_three = record { nsuccess = 0; nfailure = 0; buffer = none; length = 0; tolist = some three }

is_complete_lem_example :
    is_complete (report (true ∷ false ∷ true ∷ []) to_three) ≡ (length (receivers to_three) == 3)
is_complete_lem_example =
    is_complete_lem to_three (true ∷ false ∷ true ∷ []) three-IsValid refl (omega arith)
