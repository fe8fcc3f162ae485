-- ===== src/Manager/CommandLine/Untouched.antt =====
-- A flag that the command line does not mention leaves its variable alone.
use opensearch_dataprepper_k.Common.{
  String, ◌≡◌, refl, ◌∙◌, ◌≢◌, ◌||◌, ap, Bool, true, false, Option, none, some, List, [], ◌∷◌, ◌==◌,
  eq_iff, arith, if◌then◌else◌, All,
}
use opensearch_dataprepper_k.Common.Maps.{Map, lookup}
use opensearch_dataprepper_k.Manager.Flags.{Options, Variable, text, boolean, variables}
use opensearch_dataprepper_k.Manager.CommandLine.{
  LibraryFlag, Argument, end_of_flags, bad_syntax, bare, assigned, read_argument, Pending, ready,
  value_of, library_value_of, Progress, go_on, finish, Parsed, parsed, usage_error, help,
  parse_bool, set_library, take_argument, bare_variable, assigned_variable, bare_library,
  assigned_library, store_boolean, at_end, undefined_flag, step, parse_loop,
}

abbrev pub Avoids : String → String → Type 0
Avoids name arg =
    (read_argument arg ≢ bare name) × ((value : String) → read_argument arg ≢ assigned name value)

module _ {A : Type 0} (field : Options → A) where
  abbrev StoreKeeps : Variable → Type 0
  StoreKeeps (text store) = (v : String) (o : Options) → field (store v o) ≡ field o
  StoreKeeps (boolean store) = (b : Bool) (o : Options) → field (store b o) ≡ field o

  abbrev FoundKeeps : Option Variable → Type 0
  FoundKeeps none = Unit
  FoundKeeps (some v) = StoreKeeps v

  abbrev PendingKeeps : Pending → Type 0
  PendingKeeps ready = Unit
  PendingKeeps (value_of store) = (v : String) (o : Options) → field (store v o) ≡ field o
  PendingKeeps (library_value_of _) = Unit

  -- The variable is as in the options given.
  abbrev pub ParsedKeeps : Options → Parsed → Type 0
  ParsedKeeps o (parsed o') = field o' ≡ field o
  ParsedKeeps o usage_error = Unit
  ParsedKeeps o help = Unit

  abbrev ProgressKeeps : Options → Progress → Type 0
  ProgressKeeps o (go_on q o') = PendingKeeps q × (field o' ≡ field o)
  ProgressKeeps o (finish result) = ParsedKeeps o result

  FoundKeeps-if :
      (b : Bool) (v : Variable) (o : Option Variable)
      → (b ≡ true → StoreKeeps v)
      → FoundKeeps o
      → FoundKeeps (if b then some v else o)
  FoundKeeps-if true v o kv ko = kv refl
  FoundKeeps-if false v o kv ko = ko

  -- The entries of the table, one by one.
  abbrev pub OthersKeep : String → Map Variable → Type 0
  OthersKeep own [] = Unit
  OthersKeep own ((name, v) ∷ table) = (name ≢ own → StoreKeeps v) × OthersKeep own table

  lookup-Keeps :
      (own name : String) (table : Map Variable)
      → name ≢ own
      → OthersKeep own table
      → FoundKeeps (lookup name table)
  unfolding lookup
  lookup-Keeps own name [] ne k = tt
  lookup-Keeps own name ((n, v) ∷ rest) ne (kv, ks) =
      FoundKeeps-if (n == name) v _ (λ e. kv λ same. ne (ground (arith, eq_iff n name)))
        (lookup-Keeps own name rest ne ks)

  store_boolean-Keeps :
      (store : Bool → Options → Options) (value : Option Bool) (o : Options)
      → StoreKeeps (boolean store)
      → ProgressKeeps o (store_boolean store value o)
  unfolding store_boolean
  store_boolean-Keeps store none o k = tt
  store_boolean-Keeps store (some b) o k = (tt, k b o)

  ProgressKeeps-if :
      (b : Bool) (o : Options) (x y : Progress)
      → ProgressKeeps o x
      → ProgressKeeps o y
      → ProgressKeeps o (if b then x else y)
  ProgressKeeps-if true o x y kx ky = kx
  ProgressKeeps-if false o x y kx ky = ky

  undefined_flag-Keeps : (name : String) (o : Options) → ProgressKeeps o (undefined_flag name)
  unfolding undefined_flag
  undefined_flag-Keeps name o = ProgressKeeps-if (name == "help" || name == "h") o _ _ tt tt

  set_library-Keeps :
      (flag : LibraryFlag) (value : String) (o : Options)
      → ProgressKeeps o (set_library flag value o)
  unfolding set_library
  set_library-Keeps flag value o = ProgressKeeps-if (flag.accepts value) o _ _ (tt, refl) tt

  bare_library-Keeps :
      (flag : Option LibraryFlag) (name : String) (o : Options)
      → ProgressKeeps o (bare_library flag name o)
  unfolding bare_library
  bare_library-Keeps none name o = undefined_flag-Keeps name o
  bare_library-Keeps (some flag) name o =
      ProgressKeeps-if flag.is_bool_flag o _ _ (set_library-Keeps flag "true" o) (tt, refl)

  assigned_library-Keeps :
      (flag : Option LibraryFlag) (name value : String) (o : Options)
      → ProgressKeeps o (assigned_library flag name value o)
  unfolding assigned_library
  assigned_library-Keeps none name value o = undefined_flag-Keeps name o
  assigned_library-Keeps (some flag) name value o = set_library-Keeps flag value o

  module _ (library : String → Option LibraryFlag) where
    bare_variable-Keeps :
        (v : Option Variable) (name : String) (o : Options)
        → FoundKeeps v
        → ProgressKeeps o (bare_variable library v name o)
    unfolding bare_variable
    bare_variable-Keeps none name o k = bare_library-Keeps (library name) name o
    bare_variable-Keeps (some (text store)) name o k = (k, refl)
    bare_variable-Keeps (some (boolean store)) name o k =
        store_boolean-Keeps store (parse_bool "true") o k

    assigned_variable-Keeps :
        (v : Option Variable) (name value : String) (o : Options)
        → FoundKeeps v
        → ProgressKeeps o (assigned_variable library v name value o)
    unfolding assigned_variable
    assigned_variable-Keeps none name value o k = assigned_library-Keeps (library name) name value o
    assigned_variable-Keeps (some (text store)) name value o k = (tt, k value o)
    assigned_variable-Keeps (some (boolean store)) name value o k =
        store_boolean-Keeps store (parse_bool value) o k

    module _ (own : String) (others : OthersKeep own variables) where
      take_argument-Keeps :
          (arg : Argument) (o : Options)
          → arg ≢ bare own
          → ((value : String) → arg ≢ assigned own value)
          → ProgressKeeps o (take_argument library arg o)
      unfolding take_argument
      take_argument-Keeps end_of_flags o nb na = refl
      take_argument-Keeps bad_syntax o nb na = tt
      take_argument-Keeps (bare name) o nb na =
          bare_variable-Keeps _ name o
            (lookup-Keeps own name variables (λ e. nb (ap bare e)) others)
      take_argument-Keeps (assigned name value) o nb na =
          assigned_variable-Keeps _ name value o
            (lookup-Keeps own name variables (λ e. na value (ap (λ n. assigned n value) e)) others)

      step-Keeps :
          (p : Pending) (arg : String) (o : Options)
          → PendingKeeps p
          → Avoids own arg
          → ProgressKeeps o (step library p arg o)
      unfolding step
      step-Keeps ready arg o k (nb, na) = take_argument-Keeps (read_argument arg) o nb na
      step-Keeps (value_of store) arg o k avoids = (tt, k arg o)
      step-Keeps (library_value_of flag) arg o k avoids = set_library-Keeps flag arg o

      at_end-Keeps : (p : Pending) (o : Options) → ParsedKeeps o (at_end p o)
      unfolding at_end
      at_end-Keeps ready o = refl
      at_end-Keeps (value_of _) o = tt
      at_end-Keeps (library_value_of _) o = tt

      ParsedKeeps-along :
          (o o' : Options) (r : Parsed) → field o' ≡ field o → ParsedKeeps o' r → ParsedKeeps o r
      ParsedKeeps-along o o' (parsed _) e k = k ∙ e
      ParsedKeeps-along o o' usage_error e k = tt
      ParsedKeeps-along o o' help e k = tt

      -- From one argument to the rest of them.
      loop-Keeps :
          (r : Progress) (args : List String) (o : Options)
          → ProgressKeeps o r
          → ((q : Pending) (o' : Options)
              → PendingKeeps q
              → ParsedKeeps o' (parse_loop library q args o'))
          → ParsedKeeps o
              (elim r [ go_on q o' ↦ parse_loop library q args o' | finish result ↦ result ])
      loop-Keeps (go_on q o') args o (kq, e) rest = ParsedKeeps-along o o' _ e (rest q o' kq)
      loop-Keeps (finish result) args o kr rest = kr

      pub parse_loop-Keeps :
          (p : Pending) (args : List String) (o : Options)
          → PendingKeeps p
          → All (Avoids own) args
          → ParsedKeeps o (parse_loop library p args o)
      unfolding parse_loop
      parse_loop-Keeps p [] o k avoids = at_end-Keeps p o
      parse_loop-Keeps p (arg ∷ args) o k (avoids, rest) =
          loop-Keeps (step library p arg o) args o (step-Keeps p arg o k avoids)
            λ q o' kq. parse_loop-Keeps q args o' kq rest
