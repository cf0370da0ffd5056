-- ===== src/Drivers/Registry.antt =====
-- drivers.cc: the registry of drivers by their names. `D` is the type of drivers, with `discover` as an
-- operation that has an effect on a state.
use hwpp.Prelude.{
  none, some, List, [], ◌∷◌, if◌then◌else◌, ◌==◌, Bytes, bytes_ltb, bytes_eqb, bytes_eq, Outcome,
  ok, throw, ◌>>=◌,
}
use hwpp.Util.StdMap

pub data FindError : Type 0 where
  out_of_range : FindError

module _ {D : Type 0} where
  -- `register_driver`: the first driver of a name stays.
  unfoldable pub register_driver : Bytes → D → List (Bytes × D) → List (Bytes × D)
  unfolding StdMap.find StdMap.insert bytes_eqb
  register_driver name driver drivers = elim (StdMap.find name drivers) [
    | some other ↦ drivers
    | none ↦ StdMap.insert name driver drivers
  ]

  unfoldable pub find_driver : Bytes → List (Bytes × D) → Outcome FindError D
  unfolding StdMap.find bytes_eqb
  find_driver name drivers = elim (StdMap.find name drivers) [
    | none ↦ throw out_of_range
    | some driver ↦ ok driver
  ]

  -- `load_all_drivers`, over what the table of initialisers yields.
  unfoldable pub load_all_drivers : List (Bytes × D) → List (Bytes × D) → List (Bytes × D)
  unfolding register_driver
  load_all_drivers [] drivers = drivers
  load_all_drivers ((name, driver) ∷ rest) drivers =
      load_all_drivers rest (register_driver name driver drivers)

  -- A std::map is walked in the order of its keys.
  unfoldable pub insert_in_order : Bytes × D → List (Bytes × D) → List (Bytes × D)
  unfolding bytes_ltb
  insert_in_order entry [] = entry ∷ []
  insert_in_order entry (x ∷ xs) =
      if bytes_ltb entry.0 x.0 then entry ∷ x ∷ xs else x ∷ insert_in_order entry xs

  unfoldable pub in_order : List (Bytes × D) → List (Bytes × D)
  unfolding insert_in_order
  in_order [] = []
  in_order (entry ∷ entries) = insert_in_order entry (in_order entries)

  module _ {S : Type 0} (discover : D → S → Outcome FindError S) where
    unfoldable pub discover_all : List (Bytes × D) → S → Outcome FindError S
    discover_all [] s = ok s
    discover_all ((name, driver) ∷ rest) s = do s' ← discover driver s; discover_all rest s'

    unfoldable pub do_discovery : Bytes → List (Bytes × D) → S → Outcome FindError S
    unfolding find_driver discover_all in_order bytes_eqb
    do_discovery name drivers s =
        if name == []
        then discover_all (in_order drivers) s
        else (find_driver name drivers >>= λ driver. discover driver s)
