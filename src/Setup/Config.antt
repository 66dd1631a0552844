-- ===== src/Setup/Config.antt =====
-- project/setup/src/Setup.cpp and ConfigDSN.cpp: adding, changing and removing a data source.
use ez_rets.Base.{
  ℕ, ◌==◌, suc, List, [], ◌∷◌, ◌++◌, Option, none, some, if◌then◌else◌, take, drop, Text, codes,
  text_eq, is_empty, pos,
}
use ez_rets.DataSource.{DataSource, new_data_source, named}
use ez_rets.DataSource.Ini.{Installer, and_then, create_in_ini, remove_from_ini, merge_from_ini}
use ez_rets.Map.{put, get}
use ez_rets.Platform.{Platform}
use ez_rets.Setup.{Toolkit}
use ez_rets.Setup.Dialog.{Action, Ending, accepted, rejected, failed, show_dialog}

abbrev one_later : Option ℕ → Option ℕ
one_later none = none
one_later (some n) = some (suc n)

-- std::string::find of a character
unfoldable pub find : ℕ → Text → Option ℕ
find c [] = none
find c (x ∷ t) = let rest = find c t in if x == c then some 0 else one_later rest

-- The name and the value of a pair: without an equals sign epos is -1, and both are the pair.
abbrev pub name_value : Text → Option ℕ → Text × Text
name_value pair (some epos) = (take epos pair, drop (suc epos) pair)
name_value pair none = (pair, pair)

-- Setup::att2map, from inside a pair; nothing where the text ends without its two terminators,
-- which the loop reads past.
unfoldable pub att2map : Text → List (Text × Text) → Text → Option (List (Text × Text))
unfolding find put text_eq
att2map pair m [] = none
att2map pair m (c ∷ rest) =
    let (name, value) = name_value pair (find b'=' pair) in
    let next_pair = att2map [] (put text_eq name value m) rest in
    let same_pair = att2map (pair ++ (c ∷ [])) m rest in
    if c == 0 then if is_empty pair then some m else next_pair else same_pair

abbrev pub text_or_empty : Option Text → Text
text_or_empty none = []
text_or_empty (some t) = t

-- mAttributes["DSN"]
abbrev pub dsn_of : List (Text × Text) → Text
dsn_of m = text_or_empty (get text_eq (codes "DSN") m)

-- The request, and the error codes of the installer.
pub data Request : Type 0 where
  odbc_config_dsn odbc_add_dsn odbc_remove_dsn : Request
  other_request : ℕ → Request

pub data InstallerError : Type 0 where
  odbc_error_general_err odbc_error_invalid_name odbc_error_invalid_request_type : InstallerError

module _ {S : Type 0} (installer : Installer S) (p : Platform) (toolkit : Toolkit) where
  -- Setup::AddDsn, after the dialog
  abbrev pub added : Text → Ending → S → S × Option Text
  added driver (accepted d) st = create_in_ini installer d driver st
  added driver (rejected d) st = (st, none)
  added driver (failed t) st = (st, some t)

  -- Setup::AddDsn
  unfoldable pub add_dsn : Text → List Action → S → S × Option Text
  unfolding show_dialog
  add_dsn driver actions st = added driver (show_dialog p toolkit actions new_data_source) st

  -- Setup::ConfigDsn, after the dialog
  abbrev pub changed : Text → DataSource → Ending → S → S × Option Text
  changed driver d (accepted d') st =
      and_then installer (remove_from_ini installer d st) (create_in_ini installer d' driver)
  changed driver d (rejected d') st = (st, none)
  changed driver d (failed t) st = (st, some t)

  -- Setup::ConfigDsn
  unfoldable pub config_dsn : Text → List (Text × Text) → List Action → S → S × Option Text
  unfolding show_dialog merge_from_ini
  config_dsn driver attributes actions st =
      let d = merge_from_ini installer p st (named (dsn_of attributes)) in
      changed driver d (show_dialog p toolkit actions d) st

  -- Setup::RemoveDsn
  unfoldable pub remove_dsn : List (Text × Text) → S → S × Option Text
  unfolding remove_from_ini
  remove_dsn attributes st = remove_from_ini installer (named (dsn_of attributes)) st

  abbrev pub posted : S × Option Text → S × Option (InstallerError × Text)
  posted (st, none) = (st, none)
  posted (st, some t) = (st, some (odbc_error_general_err, t))

  -- The switch of Setup::ConfigDSN, with what ConfigDSN posts for an exception
  unfoldable pub requested :
      Request → Text → List (Text × Text) → List Action → S → S × Option (InstallerError × Text)
  unfolding add_dsn config_dsn remove_dsn
  requested odbc_config_dsn driver attributes actions st =
      posted (config_dsn driver attributes actions st)
  requested odbc_add_dsn driver attributes actions st = posted (add_dsn driver actions st)
  requested odbc_remove_dsn driver attributes actions st = posted (remove_dsn attributes st)
  requested (other_request n) driver attributes actions st = (
    st,
    some (odbc_error_invalid_request_type, codes "Unknown config request: " ++ p.print_int (pos n)),
  )

  abbrev with_attributes :
      Request
      → Text
      → List Action
      → S
      → Option (List (Text × Text))
      → Option (S × Option (InstallerError × Text))
  with_attributes request driver actions st none = none
  with_attributes request driver actions st (some m) = some (requested request driver m actions st)

  -- ConfigDSN: the installer's files and the error that is posted, where it returns FALSE; nothing
  -- where the attributes do not end
  unfoldable pub sql_config_dsn :
      Request → Option Text → Text → List Action → S → Option (S × Option (InstallerError × Text))
  unfolding requested att2map
  sql_config_dsn request none attributes actions st =
      some (st, some (odbc_error_invalid_name, codes "No driver name specified"))
  sql_config_dsn request (some driver) attributes actions st =
      if is_empty driver
      then some (st, some (odbc_error_invalid_name, codes "No driver name specified"))
      else with_attributes request driver actions st (att2map [] [] attributes)
