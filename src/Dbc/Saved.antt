-- ===== src/Dbc/Saved.antt =====
-- project/driver/src/RetsDBC.cpp with project/common/src/DataSource.cpp: connecting to a data source
-- that the setup program saved.
use ez_rets.Base.{◌<◌, ◌≡◌, ap, true, false, [], none, is_empty, length, Text, text_eq, codes}
use ez_rets.DataSource.{DataSource}
use ez_rets.DataSource.Ini.{Installer, write_to_ini, profile_size}
use ez_rets.DataSource.Ini.RoundTrip.{IsWritten, merge_from_ini-write}
use ez_rets.DataSource.Keys.{Key, key_text, value_of}
use ez_rets.Dbc.{Server, new_dbc}
use ez_rets.Dbc.Login.{login, connected, sql_connect, merged_source}
use ez_rets.Memory.{Memory}
use ez_rets.Platform.{Platform}

module _ {S : Type 0} (server : Server) (installer : Installer S) (p : Platform)
    (get-write : (st st' : S) (n e v default_value : Text)
      → installer.write_private_profile_string st n e v ≡ (st', true)
      → is_empty v ≡ false
      → length v < profile_size
      → installer.get_private_profile_string st' n e default_value profile_size ≡ v)
    (get-write_other : (st st' : S) (n e e' v default_value : Text)
      → installer.write_private_profile_string st n e v ≡ (st', true)
      → text_eq e e' ≡ false
      → installer.get_private_profile_string st' n e' default_value profile_size
        ≡ installer.get_private_profile_string st n e' default_value profile_size)
    (lower-true : p.to_lower (codes "true") ≡ codes "true")
    (lower-false : p.to_lower (codes "false") ≡ codes "false") where
  -- SQLConnect on a new connection, by the name of a data source that was written to ini files with
  -- no setting under its name, and without a user name or a password of the client's, logs in with
  -- the settings that were written. Each value fits the buffer of GetProfileString; a get gives
  -- what was last written, and a write leaves the other entries; to_lower leaves the words "true"
  -- and "false".
  pub sql_connect-write_to_ini :
      (d : DataSource) (st st' : S) (m : Memory)
      → ((k : Key) → length (value_of k d) < profile_size)
      → ((k : Key) (default_value : Text)
          → IsWritten k
          → installer.get_private_profile_string st d.name (key_text k) default_value profile_size
            ≡ default_value)
      → write_to_ini installer d st ≡ (st', none)
      → sql_connect server installer st' p new_dbc d.name none none m
        ≡ connected server
            (login server (record new_dbc { data_source = record d { driver = [] } }))
            m
  unfolding sql_connect merged_source
  sql_connect-write_to_ini d st st' m fits fresh h =
      ap (λ s. connected server (login server (record new_dbc { data_source = s })) m)
        (merge_from_ini-write installer get-write get-write_other d fits p lower-true lower-false st
          st' fresh h)
