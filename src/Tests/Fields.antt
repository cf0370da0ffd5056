-- ===== src/Tests/Fields.antt =====
-- field_types.h: a field of colours over four bits of a register.
use hwpp.Prelude.{◌≡◌, Bytes, codes, bytes_eq, ok}
use hwpp.Prelude.Int.{pos}
use hwpp.Field.{direct_field, write, evaluate, lookup_string}
use hwpp.Field.Shown.{of_enum, evaluate-write}
use hwpp.Tests.RegisterBits.{
  popcount, popcount-IsPopcount, first, first-IsCell, nibble, nibble_made, nibble_holds, start,
}
use hwpp.Tests.Datatypes.{colours, colours-IsSync, red_there}

evaluate-write_example :
    (str : Bytes) × (evaluate popcount
        (direct_field (of_enum colours) nibble)
        (write popcount (direct_field (of_enum colours) nibble) 4 start)
      ≡ ok str)
    × (lookup_string (direct_field (of_enum colours) nibble) str ≡ ok (pos 4))
evaluate-write_example =
    evaluate-write popcount popcount-IsPopcount first first-IsCell 11 8 nibble nibble_made colours 0
      4 (codes "red") colours-IsSync red_there nibble_holds start
