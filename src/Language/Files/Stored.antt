-- ===== src/Language/Files/Stored.antt =====
-- Parsing a file: where it is found afterwards.
use hwpp.Prelude.{
  ◌≡◌, refl, ap, ◌∙◌, Bool, true, false, not, ◌&&◌, some, List, [], ◌∷◌, arith, if◌then◌else◌, ◌==◌,
  ==_iff, ==_refl, Bytes, bytes_eqb, bytes_eq, ok,
}
use hwpp.Util.StdMap
use hwpp.Util.StdMap.{find-insert}
use hwpp.Language.Syntax.Validate.{Result}
use hwpp.Language.Files.{ParsedFile, Files, store_file, parse_contents, lookup_module}

find-store_file :
    (name other : Bytes) (file : ParsedFile) (files : List (Bytes × ParsedFile))
    → StdMap.find other (store_file name file files)
      ≡ (if name == other then some file else StdMap.find other files)
unfolding store_file StdMap.find
find-store_file name other file [] = refl
find-store_file name other file ((first, f) ∷ files) = ground (
  arith,
  ==_iff name other,
  ==_iff first name,
  ==_iff first other,
  find-store_file name other file files,
)

-- The module of a file that has one.
unfoldable pub named_module : ParsedFile → Bytes → Bool
unfolding bytes_eqb
named_module file m = not (file.m_module == []) && file.m_module == m

found :
    (name : Bytes) (file : ParsedFile) (files : List (Bytes × ParsedFile))
    → StdMap.find name (store_file name file files) ≡ some file
found name file files = find-store_file name name file files ∙ rw (==_refl name) refl

find-modules :
    (m : Bytes) (file : ParsedFile) (modules : List (Bytes × ParsedFile)) (unnamed : Bool)
    → StdMap.find m (if not unnamed then StdMap.insert file.m_module file modules else modules)
      ≡ (if not unnamed && file.m_module == m then some file else StdMap.find m modules)
find-modules m file modules true = refl
find-modules m file modules false = find-insert file.m_module m file modules

-- The environment with a file stored.
abbrev stored : Bytes → ParsedFile → Files → Files
stored name file env = record env {
  m_parsed_files = store_file name file env.m_parsed_files;
  m_modules =
      if not (file.m_module == [])
      then StdMap.insert file.m_module file env.m_modules
      else env.m_modules;
}

-- A file that parses is what parse_file returns and what its name finds afterwards, and so does its
-- module, if it has one. Other files and modules, and the symbols, stay as they were.
pub parse_contents-stored :
    (parser : Bytes → Bytes → Result ParsedFile) (name contents : Bytes) (file : ParsedFile)
    (env : Files)
    → parser name contents ≡ ok file
    → (env' : Files) × (parse_contents parser name contents env ≡ ok (some file, env'))
      × (env'.symbols ≡ env.symbols)
      × ((other : Bytes)
          → StdMap.find other env'.m_parsed_files
            ≡ (if name == other then some file else StdMap.find other env.m_parsed_files))
      × ((m : Bytes)
          → lookup_module m env' ≡ (if named_module file m then some file else lookup_module m env))
unfolding parse_contents lookup_module named_module
parse_contents-stored parser name contents file env parsed = (
  stored name file env,
  rw parsed (ap (λ r. ok (r, stored name file env)) (found name file env.m_parsed_files)),
  refl,
  (λ other. find-store_file name other file env.m_parsed_files),
  (λ m. find-modules m file env.m_modules (file.m_module == [])),
)
