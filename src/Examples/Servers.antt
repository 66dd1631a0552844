-- ===== src/Examples/Servers.antt =====
-- A server that lets everyone in.
use ez_rets.Base.{none, codes}
use ez_rets.DataSource.Strings.{ok}
use ez_rets.Dbc.{Server, accepted}
use ez_rets.Examples.Data.{houses}

abbrev pub open_server : Server
open_server = record {
  default_user_agent = codes "ezRETS";
  create_session = λ calls. none;
  login = λ calls. accepted;
  get_metadata = λ calls. ok houses;
  logout = λ calls. none;
}
