-- ===== src/Lib.antt =====
-- hwpp: a verification library for the C++ library hwpp, which names the registers and fields of
-- hardware by paths and reads and writes them through typed values.
--
-- The program. A path (path.h, path.cc) names a register, a field or a scope. A field reads and
-- writes bits of registers through RegBits (regbits.h) and shows them by a datatype
-- (datatype_types.h). The definition files are written in a small language, whose types
-- (language/type.h) and symbol tables (util/symbol_table.h) are its own. KeyedVector
-- (util/keyed_vector.h) holds what keeps the order in which it was declared: the entries of scopes,
-- enumerations and bit masks. BitBuffer (util/bit_buffer.h) carries the bytes of a value between
-- the numbers (util/bignum.cc) and the devices. A scope (scope.h) holds registers, fields, arrays,
-- aliases and scopes by name; paths are looked up in it and made canonical. Drivers (driver.h) bind
-- scopes to devices, whose files (util/filesystem.h) they read and write, and give the devices that they
-- discover to callbacks. The functions of the fake language (fake_language.h), by which definition files
-- are written, work in the current context of the runtime (runtime.h), on top of scopes.
--
-- The files.
--   Prelude and its children: names of the libraries, Boolean tests, lists over the native numbers,
--     strings as bytes, integers, bitwise operations, and the result of a C++ operation, which
--     returns, throws or is undefined.
--   Util/StdMap: std::map as an association list.
--   Util/KeyedVector: util/keyed_vector.h, member by member; its children hold the invariant (the
--     map, the values and the key pointers agree), the refinement against an association list in
--     insertion order, the copy, and the erasure of a range.
--   Util/SymbolTable: util/symbol_table.h; Scoping has what lookups see.
--   Util/BitBuffer: util/bit_buffer.cc, and to_bitbuffer and operator= of util/bignum.cc.
--   Word: BYTES_TO_BITS, BITS_TO_BYTES and MASK of hwpp.h.
--   RegBits: regbits.h over registers with a state; Field, Access, Joined and Parts are its theorems.
--   Datatype: datatype.h; Multi, Enum and Kinds: datatype_types.h.
--   Field: the direct and the constant fields of field_types.h with the operations of field.h.
--   Language/Types: language/type.h and language/type.cc.
--   Language/Variable: language/variable.h and language/variable.cc; Typed: which values there are.
--   Language/Syntax: the nodes of language/syntax_tree.h; Print: language/syntax_tree.cc; Validate and
--     its children: the validation of nodes with the symbols of language/environment.h; Scoping and
--     Validated: what validation does to the scopes of symbols.
--   Language/Files: language/parsed_file.h and language/environment.cc; Again and Stored: what is
--     validated twice, and where a parsed file is found.
--   Path/Element: the element parser of path.cc, one function per switch, and its printer. Names:
--     what it accepts; Indexed: array accesses that are printed and parsed.
--   Path/Sequence: Path of path.h and path.cc; Edit and Text are its theorems.
--   Scope: scope.h, dirent.h, array.h, alias.h and the operations of scope.cc on one scope; Walk: the
--     climbing loops, walk_path and the lookups. Climbs: where the loops end; Steps, Canonical, Resolve,
--     Lookup, Spelled, Resolved: that a resolved path leads where the path did; Ends and Endless: which
--     lookups end; Entries: what adding an object does.
--   Util/File: File of util/filesystem.h over system calls; Util/Mapping: its FileMapping.
--   Drivers/Bindings: the addresses, the arguments of new_binding and the checks of an access in
--     drivers/; PciIo: drivers/pci/pci_binding.cc; Ports: drivers/msr/msr_binding.cc and
--     drivers/io/io_binding.cc; MemIo: drivers/mem/mem_binding.cc; CpuidIo: drivers/cpuid/cpuid_binding.cc; Pci and Cpu: discovery in
--     drivers/pci/pci_driver.cc and drivers/cpu/cpu_driver.cc; Registry: drivers.cc. Checks, Config,
--     Mapped, Affinity, Order and Discovery are their theorems.
--   Runtime: context.h and runtime.cc; Action: operations that throw and keep their state; Access:
--     register_types.h, field_types.h and magic_regs.cc with the parts of regbits.h, where an access may
--     throw; Balance: what accesses do to the contexts.
--   FakeLanguage: lookups of fake_language.cc in the current context; Objects: the functions that read
--     and write; Define: those that define scopes, registers, fields and aliases; Types: those that
--     define datatypes. Names, Added and Opened are their theorems.
--   Tests: small runs, and the theorems applied to concrete values.
--
-- The model. Sizes and counts are natural numbers; a width that the source keeps in a machine word
-- has its wrap-around written out (of_register, byte_count, to_bitbuffer). Values are numbers or integers
-- of any size, as in the source. A loop is a recursion on the list it walks or on the number of
-- turns that are left; where the source divides a number until it is 0, the fuel is the number
-- itself, which is at least the number of turns. A std::vector's operator[] checks nothing and is
-- undefined past the end; at() throws. A failed assertion of bit_buffer.cc is an error of its own.
-- Objects that the source shares by pointer stand in a store, a list, and a pointer is a place in it;
-- registers, fields, bindings and datatypes of a scope are opaque there. A loop that climbs to parents
-- has the number of objects as its fuel, which is enough in a tree; a lookup has the number of aliases
-- that are followed inside one another as its fuel, of which a store without aliases needs none.
--
-- Parameters. GMP's population count and the parsing of numbers, and Boost's trim_copy and split,
-- are arguments of the definitions that use them; IsPopcount and BoostLaws say what is relied on.
-- A register is an object over a machine state: reading changes nothing, and neither reading nor
-- writing throws; IsCell is the register that behaves like memory. The system calls that a File makes
-- are a record of functions on a state, and so are those of a mapping with the loads and stores of
-- memory (MemoryMap); IsRegularFile says what POSIX promises of a regular file, IsProcessor what Linux
-- promises of the affinity of a process. The accesses of a binding and the procedures of a definition
-- file, which the fake language calls, are records of operations. The cpuid instruction, the list of the
-- devices and, in discovery, the reading of a device's identification are arguments.
--
-- Not modelled: the generated parser of the language, the tables of device declarations, and everything
-- that is input and output alone. Nodes of the syntax tree cannot be executed in the source yet.
pub mod Prelude
pub mod Word
pub mod RegBits
pub mod Path
pub mod Datatype
pub mod Field
pub mod Language
pub mod Scope
pub mod Runtime
pub mod FakeLanguage
pub mod Drivers
pub mod Util
pub mod Tests
