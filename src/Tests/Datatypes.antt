-- ===== src/Tests/Datatypes.antt =====
-- datatype.h and datatype_types.h on an enumeration of two values and a choice of two ranges.
use hwpp.Prelude.{
  ◌+◌, ◌*◌, ◌^◌, ◌<◌, ◌≡◌, refl, false, ◌&&◌, some, [], ◌∷◌, arith, if◌then◌else◌, ◌==◌, get_elem?,
  Bytes, codes, bytes_eqb, bytes_eq, ok,
}
use hwpp.Prelude.Int.{ℤ, pos, negsuc, z_leb, int_eq, neg}
use hwpp.Util.StdMap
use hwpp.Util.KeyedVector
use hwpp.Util.KeyedVector.{KeyedVector}
use hwpp.Util.KeyedVector.Invariant.{insert-IsSync, IsSync, clear-IsSync}
use hwpp.Util.KeyedVector.Refines.{entries}
use hwpp.Util.BitBuffer.{count_bytes}
use hwpp.Datatype.{Datatype}
use hwpp.Datatype.Multi.{MultiRange, MultiDatatype, evaluate, add_range, insert_range}
use hwpp.Datatype.Multi.Ranges.{IsSorted, add_range-evaluate, add_range-returns, are_apart, returns}
use hwpp.Datatype.Enum
use hwpp.Datatype.Enum.{
  EnumDatatype, lookup_string, lookup_value, bool_datatype, bool_lookup_value, add_value, blank,
}
use hwpp.Datatype.Enum.RoundTrip.{evaluate-lookup_string}

-- A datatype that shows every value by one string.
abbrev shows : Bytes → Datatype
shows str = record {
  evaluate = λ v. ok str;
  lookup_string = λ s. ok (pos 3);
  lookup_value = λ v. ok v;
}

abbrev high_part : MultiRange
high_part = record { type = shows (codes "high"); low = pos 10; high = pos 20 }

abbrev low_part : MultiRange
low_part = record { type = shows (codes "low"); low = negsuc 4; high = pos 5 }

abbrev high_only : MultiDatatype
high_only = record { m_parts = high_part ∷ [] }

abbrev both : MultiDatatype
both = record { m_parts = low_part ∷ high_part ∷ [] }

high_only-IsSorted : IsSorted high_only.m_parts
high_only-IsSorted = (refl, tt, tt)

low_added : add_range (shows (codes "low")) (negsuc 4) (pos 5) high_only ≡ ok both
unfolding add_range insert_range
low_added = refl

add_range-evaluate_example :
    IsSorted both.m_parts
    × (evaluate (pos 3) both ≡ (
        if z_leb (negsuc 4) (pos 3) && z_leb (pos 3) (pos 5)
        then Datatype.evaluate (shows (codes "low")) (pos 3)
        else evaluate (pos 3) high_only))
add_range-evaluate_example =
    add_range-evaluate (shows (codes "low")) (negsuc 4) (pos 5) (pos 3) high_only both
      high_only-IsSorted low_added

add_range-returns_example :
    returns (add_range (shows (codes "low")) (pos 15) (pos 30) high_only)
    ≡ (z_leb (pos 15) (pos 30) && are_apart (pos 15) (pos 30) high_only.m_parts)
add_range-returns_example =
    add_range-returns (shows (codes "low")) (pos 15) (pos 30) high_only high_only-IsSorted

abbrev colour_values : KeyedVector Bytes ℤ
colour_values = KeyedVector.insert (codes "red") (pos 4) KeyedVector.clear

abbrev pub colours : EnumDatatype
colours = record { m_values = colour_values; m_unknown = []; m_custom_unknown = false }

pub colours-IsSync : IsSync colours.m_values
colours-IsSync = insert-IsSync (codes "red") (pos 4) KeyedVector.clear clear-IsSync

pub red_there : get_elem? (entries colours.m_values) 0 ≡ some (codes "red", pos 4)
unfolding KeyedVector.insert KeyedVector.clear StdMap.find StdMap.insert
red_there = refl

evaluate-lookup_string_example :
    (str : Bytes) × (Enum.evaluate (pos 4) colours ≡ ok str)
    × (lookup_string str colours ≡ ok (pos 4))
    × (lookup_value (pos 4) colours ≡ ok (pos 4))
evaluate-lookup_string_example =
    evaluate-lookup_string (pos 4) colours 0 (codes "red") colours-IsSync red_there

words_differ : (codes "on" == codes "off") ≡ false
unfolding bytes_eqb
words_differ = refl

few_bytes : count_bytes 7 7 * 8 + 7 < 2 ^ 64
unfolding count_bytes
few_bytes = omega arith

abbrev negate : ℤ → ℤ
negate (pos n) = neg n
negate (negsuc n) = pos (n + 1)
