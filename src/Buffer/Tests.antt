-- ===== src/Buffer/Tests.antt =====
-- The buffer (src/message.c) at small concrete inputs.
use libevlite.Base.{◌≡◌, refl, [], ◌∷◌, ◌++◌, take, length, arith, true, some}
use libevlite.Base.Int.{ℤ, negsuc}
use libevlite.Buffer.Defs.{Buffer, bytes, expand, append, take_out, max_buffer_length}
use libevlite.Buffer.Bytes.{IsValid}
use libevlite.Buffer.Expand.{Expanded, expand_lem}
use libevlite.Buffer.Laws.{Appended, append_lem, take_out_lem}
use libevlite.Buffer.Read.{read_withvector, request}
use libevlite.Buffer.ReadLaws.{Received, read_withvector_lem, request_all}

-- Two valid bytes, 5 and 6, behind one that was erased, in a block of four.
abbrev two : Buffer
two = record { length = 2; capacity = 4; offset = 1; store = 9 ∷ 5 ∷ 6 ∷ 0 ∷ [] }

two-IsValid : IsValid two
two-IsValid = record { stored = refl; fits = omega arith; small = omega arith }

expand_lem_example :
    (rc : ℤ) × (r : Buffer) × (expand 0 true two 3 ≡ some (rc, r)) × Expanded two 3 true rc r
expand_lem_example = expand_lem 0 true two 3 two-IsValid (omega arith)

append_lem_example :
    (rc : ℤ) × (r : Buffer) × (append 0 true two (7 ∷ 8 ∷ 1 ∷ []) ≡ some (rc, r))
    × Appended two (7 ∷ 8 ∷ 1 ∷ []) true rc r
append_lem_example = append_lem 0 true two (7 ∷ 8 ∷ 1 ∷ []) two-IsValid (omega arith)

take_out_lem_example :
    let (out, k, r) = take_out two 1 in
    (out ≡ take 1 (bytes two)) × (k ≡ length out) × (out ++ bytes r ≡ bytes two) × IsValid r
take_out_lem_example = take_out_lem two 1 two-IsValid

read_withvector_lem_example :
    (rc : ℤ) × (r : Buffer) × (read_withvector 0 true two (some (7 ∷ 8 ∷ [])) ≡ some (rc, r))
    × Received two (7 ∷ 8 ∷ []) true rc r
read_withvector_lem_example = read_withvector_lem 0 true two (7 ∷ 8 ∷ []) two-IsValid (omega arith)

request_all_example : request (some 5000) (negsuc 0) ≡ max_buffer_length
request_all_example = request_all (some 5000)
