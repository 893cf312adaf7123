-- ===== src/Analyzer/Registry.antt =====
-- The set of formats as a table from numbers to fields.
use libcutils.Base.{
  ℕ, zero, suc, ◌+◌, ◌-◌, ◌%◌, ◌^◌, ◌<◌, ◌≤◌, ◌≡◌, refl, ◌∙◌, List, [], ◌∷◌, true, false, Option,
  none, some, le→ltb, ◌==◌, if◌then◌else◌, get_elem?, set, arith, length, length-set,
  get_elem?-set_self,
}
use libcutils.Base.Words.{add32}
use libcutils.HashMap.Chain.{Hlist}
use libcutils.Analyzer.Format.{InfoList, FormatSet, add_proto_link_list}
use libcutils.Analyzer.{Analyzer, is_present, check_protocol_num, find_protocol_format}

-- The table has a place for each number, and the numbers do not go round.
abbrev IsTable : FormatSet → Type 0
IsTable pfs =
    (length pfs.list_head_p2 ≡ pfs.proto_max_num)
    × (pfs.proto_base_addr + pfs.proto_max_num < 2 ^ 32)

abbrev pub entry : FormatSet → ℕ → Option (Option (List InfoList))
entry pfs i = get_elem? pfs.list_head_p2 i

entry_set :
    (xs : List (Option (List InfoList))) (i j : ℕ) (v : Option (List InfoList))
    → i < length xs
    → get_elem? (set xs i v) j ≡ (if j == i then some v else get_elem? xs j)
entry_set [] i j v h = absurd (omega (arith, h))
entry_set (x ∷ xs) zero zero v h = refl
entry_set (x ∷ xs) zero (suc j) v h =
    let differ : (suc j == 0) ≡ false = ground arith in rw differ refl
entry_set (x ∷ xs) (suc i) zero v h =
    let differ : (0 == suc i) ≡ false = ground arith in rw differ refl
entry_set (x ∷ xs) (suc i) (suc j) v h =
    let same : (suc j == suc i) ≡ (j == i) = ground arith in
    rw same (entry_set xs i j v (omega (arith, h)))

get_elem?_total :
    {A : Type 0} (xs : List A) (i : ℕ) → i < length xs → (x : A) × (get_elem? xs i ≡ some x)
get_elem?_total [] i h = absurd (omega (arith, h))
get_elem?_total (x ∷ xs) zero h = (x, refl)
get_elem?_total (x ∷ xs) (suc i) h = get_elem?_total xs i (omega (arith, h))

get_elem?_beyond : {A : Type 0} (xs : List A) (i : ℕ) → length xs ≤ i → get_elem? xs i ≡ none
get_elem?_beyond [] i h = refl
get_elem?_beyond (x ∷ xs) zero h = absurd (omega (arith, h))
get_elem?_beyond (x ∷ xs) (suc i) h = get_elem?_beyond xs i (omega (arith, h))

module _ {api : Hlist} where
  check_protocol_num-true :
      (pa : Analyzer api)
      → pa.pfs.proto_base_addr + pa.pfs.proto_max_num < 2 ^ 32
      → pa.pfs.proto_base_addr ≤ pa.protocol_num
      → pa.protocol_num ≤ pa.pfs.proto_base_addr + pa.pfs.proto_max_num
      → check_protocol_num pa ≡ true
  unfolding check_protocol_num
  check_protocol_num-true pa small low high =
      let top : (pa.pfs.proto_base_addr + pa.pfs.proto_max_num) % 2 ^ 32
          ≡ pa.pfs.proto_base_addr + pa.pfs.proto_max_num =
        omega (arith, small) in
      rw
        (
          top,
          le→ltb (pa.pfs.proto_base_addr + pa.pfs.proto_max_num) pa.protocol_num high,
          le→ltb pa.protocol_num pa.pfs.proto_base_addr low,
        )
        refl

  -- A number inside the range is answered with its place in the table.
  find_inside :
      (pa : Analyzer api) (i : ℕ) (format : Option (List InfoList))
      → IsTable pa.pfs
      → i < pa.pfs.proto_max_num
      → pa.protocol_num ≡ pa.pfs.proto_base_addr + i
      → get_elem? pa.pfs.list_head_p2 i ≡ some format
      → find_protocol_format pa ≡ some (is_present format, record pa { pf_list = format })
  unfolding find_protocol_format
  find_inside pa i format (places, small) less e here =
      let at : pa.protocol_num - pa.pfs.proto_base_addr ≡ i = omega (arith, e) in
      rw (check_protocol_num-true pa small (omega (arith, e)) (omega (arith, e, less)), at, here)
        refl

  -- In a table with a place for each number, none of which goes round, fields put at a place up to 200 are
  -- found by the number of that place; the other places keep what they hold, and there is one format more.
  pub find_protocol_format-add_proto_link_list :
      (pa : Analyzer api) (i : ℕ) (fields : List InfoList)
      → IsTable pa.pfs
      → i < pa.pfs.proto_max_num
      → i ≤ 200
      → pa.protocol_num ≡ pa.pfs.proto_base_addr + i
      → (pfs' : FormatSet) × (add_proto_link_list i (some fields) pa.pfs ≡ some (true, pfs'))
        × (find_protocol_format (record pa { pfs = pfs' })
            ≡ some (true, record pa { pfs = pfs'; pf_list = some fields }))
        × ((j : ℕ) → entry pfs' j ≡ (if j == i then some (some fields) else entry pa.pfs j))
        × (pfs'.proto_total_num ≡ add32 pa.pfs.proto_total_num 1)
  unfolding add_proto_link_list
  find_protocol_format-add_proto_link_list pa i fields (places, small) less in_table e =
      let (old, here) = get_elem?_total pa.pfs.list_head_p2 i (omega (arith, less, places)) in
      let list' = set pa.pfs.list_head_p2 i (some fields) in
      let pfs' = record pa.pfs {
        list_head_p2 = list';
        proto_total_num = add32 pa.pfs.proto_total_num 1;
      } in
      let there =
        get_elem?-set_self pa.pfs.list_head_p2 i (some fields) (omega (arith, less, places)) in
      (
        pfs',
        rw (le→ltb 200 i in_table, here) refl,
        find_inside (record pa { pfs = pfs' }) i (some fields)
            (length-set pa.pfs.list_head_p2 i (some fields) ∙ places, small) less e there,
        λ j. entry_set pa.pfs.list_head_p2 i j (some fields) (omega (arith, less, places)),
        refl,
      )

  -- The number behind the last place of a table is let through to an access outside the table.
  pub find_protocol_format_faults :
      (pa : Analyzer api)
      → IsTable pa.pfs
      → pa.protocol_num ≡ pa.pfs.proto_base_addr + pa.pfs.proto_max_num
      → find_protocol_format pa ≡ none
  unfolding find_protocol_format
  find_protocol_format_faults pa (places, small) e =
      let at : pa.protocol_num - pa.pfs.proto_base_addr ≡ pa.pfs.proto_max_num = omega (arith, e) in
      rw
        (
          check_protocol_num-true pa small (omega (arith, e)) (omega (arith, e)),
          at,
          get_elem?_beyond pa.pfs.list_head_p2 pa.pfs.proto_max_num (omega (arith, places)),
        )
        refl
