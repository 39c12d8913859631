-- ===== src/Tests/Tables.antt =====
-- Tests of mysql/, mapper/, network/Connector, network/TcpClient, the pollers and FlvManager::ParseFile.
use live_broadcast_server.Common.{
  ℕ, ◌+◌, ◌≡◌, refl, inl, inr, true, false, Option, none, some, List, [], ◌∷◌, ◌++◌, arith, ◌==◌,
  if◌then◌else◌, Bool-cases,
}
use live_broadcast_server.Common.Names.{find_key, compare_names}
use live_broadcast_server.Flv.{FlvTag, get_data_size}
use live_broadcast_server.Flv.Manager.Reread.{IsTag}
use live_broadcast_server.Flv.Reader.{FlvReader, new_reader, parse_rounds}
use live_broadcast_server.Flv.Reader.Rounds.{no_tags, one_tag, Ends, all_bytes, sum_sizes}
use live_broadcast_server.Flv.Reader.Tags.{parse_rounds-tags}
use live_broadcast_server.Flv.Reader.Misread.{in_file}
use live_broadcast_server.Flv.Reader.Endless.{parse_rounds-endless}
use live_broadcast_server.Mysql.Users.First.{User}
use live_broadcast_server.Mysql.Db.{
  DatabaseInfo, DbMysql, live, initialize, Reach, starts, calls, initializes, call, connect_in,
  init_behind, db_of,
}
use live_broadcast_server.Mysql.Db.Reuse.{initialize-again}
use live_broadcast_server.Net.Channel.{Channel, new_channel, added_status, Events}
use live_broadcast_server.Net.Client.{
  TcpClient, new_client, another, remove_connection, dis_connect,
}
use live_broadcast_server.Net.Client.Close.{IsClosed, remove_connection-IsClosed, dis_connect-null}
use live_broadcast_server.Net.Connector.{
  Connector, new_connector, success, econnrefused, Call, connects, writes, disconnects, call_all,
}
use live_broadcast_server.Net.Connector.Safe.{
  HasChannel, call_all-HasChannel, new_connector-HasChannel,
}
use live_broadcast_server.Net.Epoll.Follows.{Follows, is_new, is_added}
use live_broadcast_server.Net.Epoll.Wait.{
  ready, loop_once, AllAllowed, no_reports, no_channel, allowed, IsTold, reported_channels,
  loop_once-IsTold,
}
use live_broadcast_server.Net.Tcp.{new_connection}
use live_broadcast_server.Tests.Network.{kernel}

abbrev ann : List ℕ
ann = b'a' ∷ b'n' ∷ b'n' ∷ []

abbrev users : List User
users =
    record { user = none; passwd = some (1 ∷ []) }
    ∷ record { user = some ann; passwd = some (2 ∷ []) }
    ∷ record { user = some ann; passwd = none }
    ∷ []

abbrev info : DatabaseInfo
info = record { host = []; user = ann; passwd = []; db_name = [] }

abbrev used_db : DbMysql
used_db = record { db_info = info; inited = true; mysql = live }

used_db-Reach : Reach used_db
unfolding call initialize connect_in init_behind db_of
used_db-Reach = calls (initializes true info) starts refl

initialize-again_example : initialize true info used_db ≡ none
initialize-again_example = initialize-again true info used_db used_db-Reach (cc)

-- A tag of two bytes.
abbrev small_tag : FlvTag
small_tag = record { header = 9 ∷ 0 ∷ 0 ∷ 2 ∷ 0 ∷ 0 ∷ 0 ∷ 0 ∷ 0 ∷ 0 ∷ 0 ∷ []; body = 5 ∷ 6 ∷ [] }

small_tag-IsTag : IsTag small_tag
unfolding get_data_size
small_tag-IsTag = record {
  header_length = refl;
  body_length = refl;
  body_bound = omega arith;
  not_empty = omega arith;
}

abbrev two_tags : List FlvTag
two_tags = small_tag ∷ small_tag ∷ []

abbrev reader : FlvReader
unfolding all_bytes
reader = new_reader (all_bytes two_tags ++ (0 ∷ 0 ∷ 0 ∷ 13 ∷ []))

parse_rounds-tags_example :
    Ends
      (reader.parsed_length + sum_sizes two_tags)
      reader.flv_tags
      two_tags
      (parse_rounds 40 (reader.parsed_length + sum_sizes two_tags) reader)
unfolding all_bytes reader
parse_rounds-tags_example =
    parse_rounds-tags 40 reader two_tags (0 ∷ 0 ∷ 0 ∷ 13 ∷ [])
      (one_tag small_tag-IsTag (one_tag small_tag-IsTag no_tags)) refl refl refl (omega arith)

abbrev file_rest : List ℕ
file_rest = small_tag.header ++ (small_tag.body ++ (0 ∷ 0 ∷ 0 ∷ 13 ∷ 9 ∷ 9 ∷ 9 ∷ []))

abbrev file_reader : FlvReader
file_reader = new_reader (in_file small_tag ++ file_rest)

abbrev at_end : FlvReader
at_end = record (new_reader []) { buffer = 1 ∷ 2 ∷ [] }

parse_rounds-endless_example : parse_rounds 50 10 at_end ≡ none
parse_rounds-endless_example =
    parse_rounds-endless 50 10 at_end (record {
      at_header = refl;
      is_short = omega arith;
      at_end = refl;
      below_limit = omega arith;
    })

abbrev calls_made : List Call
calls_made = connects success 4 ∷ connects econnrefused 5 ∷ writes ∷ disconnects ∷ []

call_all-HasChannel_example :
    (d : Connector) × (call_all calls_made new_connector ≡ some d) × HasChannel d
call_all-HasChannel_example = call_all-HasChannel calls_made new_connector new_connector-HasChannel

abbrev client : TcpClient
client = record (new_client ann) {
  connection_ptr = some ann;
  connections = (ann, new_connection) ∷ [];
  retry = true;
  connect_wanted = true;
}

client-found : find_key ann client.connections ≡ some new_connection
unfolding find_key compare_names
client-found = refl

remove_connection-IsClosed_example :
    (d : TcpClient) × (remove_connection success 6 (another ann) client ≡ some d)
    × IsClosed success 6 client ann d
remove_connection-IsClosed_example =
    remove_connection-IsClosed success 6 client ann new_connection refl client-found

dis_connect-null_example : dis_connect success 6 client ≡ none
dis_connect-null_example = dis_connect-null success 6 client

-- Descriptor 3 is registered for reading, and no other for anything.
abbrev reading : Events
reading = record { readable = true; writable = false }

abbrev registrations : ℕ → Option Events
registrations fd = if fd == 3 then some reading else none

abbrev channels : ℕ → Channel
channels fd =
    if fd == 3
    then record new_channel { channel_status = added_status; ep_event = reading }
    else new_channel

channels-Follows : (fd : ℕ) → Follows kernel registrations fd (channels fd)
channels-Follows fd = elim (Bool-cases (fd == 3)) [
  | inl y ↦ rw y (is_added refl (rw y refl))
  | inr n ↦ rw n (is_new refl (rw n refl))
]

three_reported : AllAllowed kernel registrations ((none, reading) ∷ (some 3, reading) ∷ [])
three_reported = no_channel (
    allowed (let e : registrations 3 ≡ some reading = refl in e)
      (record { reads = λ e. e; writes = λ e. e }) no_reports)

loop_once-IsTold_example :
    (after : ℕ → Channel) × (loop_once (ready ((none, reading) ∷ (some 3, reading) ∷ [])) channels
      ≡ some (reported_channels ((none, reading) ∷ (some 3, reading) ∷ []), after))
    × ((fd : ℕ)
        → IsTold kernel registrations
            ((none, reading) ∷ (some 3, reading) ∷ [])
            fd
            (channels fd)
            (after fd))
loop_once-IsTold_example =
    loop_once-IsTold kernel registrations ((none, reading) ∷ (some 3, reading) ∷ []) channels
      three_reported channels-Follows
