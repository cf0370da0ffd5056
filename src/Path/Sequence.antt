-- ===== src/Path/Sequence.antt =====
-- path.h and path.cc: Path, a list of elements. An iterator is the number of elements before it.
-- The trimming and the splitting of a string are those of Boost.
pub mod Text
pub mod Edit
use hwpp.Prelude.{
  ℕ, Bool, true, false, not, ◌&&◌, ◌||◌, List, [], ◌∷◌, ◌++◌, eqb, bool_eqb, if◌then◌else◌, length,
  take, drop, Bytes, bytes_eq, Outcome, ok, throw, ◌>>=◌, ◌>>◌,
}
use hwpp.Path.Element.{Element, InvalidError, parse}
use hwpp.Path.Element

pub record HwppPath : Type 0 where
  pub m_list : List Element
  pub m_absolute : Bool

pub data PathError : Type 0 where
  path_is_empty : PathError

-- `Path()`
unfoldable pub empty_path : HwppPath
empty_path = record { m_list = []; m_absolute = false }

-- `Path(elem)` and `Path(elem1, elem2)`
unfoldable pub of_element : Element → HwppPath
of_element elem = record { m_list = elem ∷ []; m_absolute = false }

unfoldable pub of_elements : Element → Element → HwppPath
of_elements elem1 elem2 = record { m_list = elem1 ∷ elem2 ∷ []; m_absolute = false }

unfoldable pub size : HwppPath → ℕ
size p = length p.m_list

unfoldable pub is_initialized : HwppPath → Bool
is_initialized p = p.m_absolute || not (eqb (length p.m_list) 0)

unfoldable pub front : HwppPath → Outcome PathError Element
front p = elim p.m_list [ [] ↦ throw path_is_empty | e ∷ es ↦ ok e ]

-- The last element of a list that is not empty.
unfoldable pub last : Element → List Element → Element
last e [] = e
last e (x ∷ es) = last x es

unfoldable pub back : HwppPath → Outcome PathError Element
unfolding last
back p = elim p.m_list [ [] ↦ throw path_is_empty | e ∷ es ↦ ok (last e es) ]

-- `push_back(elem)`
unfoldable pub push_back : Element → HwppPath → HwppPath
push_back elem p = record p { m_list = p.m_list ++ elem ∷ [] }

-- `push_back(path)`, the loop over the elements of another path; `operator+=` and `operator+`.
unfoldable pub push_elements : List Element → HwppPath → HwppPath
unfolding push_back
push_elements [] p = p
push_elements (e ∷ es) p = push_elements es (push_back e p)

unfoldable pub push_back_path : HwppPath → HwppPath → HwppPath
unfolding push_elements
push_back_path path p = push_elements path.m_list p

-- `std::list::pop_front` and `std::list::pop_back`
unfoldable pub without_first : List Element → List Element
without_first [] = []
without_first (e ∷ es) = es

unfoldable pub without_last : Element → List Element → List Element
without_last e [] = []
without_last e (x ∷ es) = e ∷ without_last x es

unfoldable pub pop_front : HwppPath → Outcome PathError (Element × HwppPath)
unfolding front without_first
pop_front p = do old_front ← front p; ok (old_front, record p { m_list = without_first p.m_list })

unfoldable pub pop_back : HwppPath → Outcome PathError (Element × HwppPath)
unfolding back without_last
pop_back p = do
  old_back ← back p
  ok (old_back, record p { m_list = elim p.m_list [ [] ↦ [] | e ∷ es ↦ without_last e es ] })

-- `insert(pos, elem)`
unfoldable pub insert : ℕ → Element → HwppPath → HwppPath
insert pos elem p = record p { m_list = take pos p.m_list ++ elem ∷ drop pos p.m_list }

-- `erase(first, last)`
unfoldable pub erase : ℕ → ℕ → HwppPath → HwppPath
erase first last p = record p { m_list = take first p.m_list ++ drop last p.m_list }

-- `splice(pos, path)`, of a copy.
unfoldable pub splice : ℕ → HwppPath → HwppPath → HwppPath
splice pos path p = record p { m_list = take pos p.m_list ++ path.m_list ++ drop pos p.m_list }

unfoldable pub clear : HwppPath → HwppPath
clear p = record { m_list = []; m_absolute = false }

unfoldable pub set_absolute : Bool → HwppPath → HwppPath
set_absolute val p = record p { m_absolute = val }

-- The loop of `to_string`.
unfoldable pub elements_to_string : List Element → Bytes
unfolding Element.to_string
elements_to_string [] = []
elements_to_string (e ∷ []) = Element.to_string e
elements_to_string (e ∷ x ∷ es) = Element.to_string e ++ b'/' ∷ elements_to_string (x ∷ es)

unfoldable pub to_string : HwppPath → Bytes
unfolding elements_to_string
to_string p =
    if p.m_absolute then b'/' ∷ elements_to_string p.m_list else elements_to_string p.m_list

-- The loop of `equals`, over lists of one length.
unfoldable pub elements_equal : List Element → List Element → Bool
unfolding Element.equals
elements_equal (e ∷ es) (x ∷ xs) = Element.equals e x && elements_equal es xs
elements_equal _ _ = true

unfoldable pub equals : HwppPath → HwppPath → Bool
unfolding elements_equal size
equals p other =
    if not (eqb (size p) (size other))
    then false
    else if not (bool_eqb p.m_absolute other.m_absolute)
    then false
    else elements_equal p.m_list other.m_list

-- The loop of `append`, which leaves out the blank parts.
unfoldable pub push_parts : List Bytes → HwppPath → Outcome InvalidError HwppPath
unfolding parse push_back
push_parts [] p = ok p
push_parts (part ∷ parts) p =
    if eqb (length part) 0
    then push_parts parts p
    else (parse part >>= λ e. push_parts parts (push_back e p))

-- `parts.size() > 0 && parts[0].length() == 0`
unfoldable pub starts_blank : List Bytes → Bool
starts_blank [] = false
starts_blank (part ∷ parts) = eqb (length part) 0

module _ (trim_copy : Bytes → Bytes) (split : Bytes → List Bytes) where
  -- `append`, with `boost::algorithm::trim_copy` and `boost::split` at `/` with compressed tokens.
  unfoldable pub append : Bytes → HwppPath → Outcome InvalidError HwppPath
  unfolding push_parts starts_blank
  append str p =
      if eqb (length (trim_copy str)) 0
      then ok p
      else push_parts (split (trim_copy str))
          (record p { m_absolute = starts_blank (split (trim_copy str)) || p.m_absolute })

  -- `Path(string)`
  unfoldable pub of_string : Bytes → Outcome InvalidError HwppPath
  unfolding append empty_path
  of_string path = append path empty_path
