-- ===== src/Auth/ClientTests.antt =====
-- web/src/lib/rpc.ts, web/src/lib/rpc-server.ts on a concrete call.
use Prim.Native.String.{◌++◌}
use scylladb_grpc_microservi.Common.{
  String, true, false, none, some, if◌then◌else◌, ◌≡◌, refl, empty, write,
}
use scylladb_grpc_microservi.Auth.Cookies.{CookieJar}
use scylladb_grpc_microservi.Auth.Rpc.{ProxiedRequest}
use scylladb_grpc_microservi.Auth.Rpc.Clients.{
  Environment, notes, browser_base_url, server_base_url, Transport, ends_with_slash, handler,
  server_headers,
}
use scylladb_grpc_microservi.Auth.Rpc.Clients.Laws.{handler-server_headers}
use scylladb_grpc_microservi.Auth.SessionTests.{cookie}

abbrev environment : Environment
environment = record {
  auth_rpc_url = none;
  notes_rpc_url = some "http://notes:9092";
  whiteboard_rpc_url = none;
  workspace_rpc_url = none;
  next_public_notes_rpc_url = none;
  next_public_whiteboard_rpc_url = none;
}

abbrev jar : CookieJar
jar = write "access_token" (cookie "t1") empty

abbrev get_note : ProxiedRequest
get_note = record {
  method = "POST";
  pathname = "/api/rpc/notes/notes.v1.NotesService/GetNote";
  search = "";
  headers = write "host" "app.example" empty;
  body = some "n1";
  cookies = jar;
}

abbrev transport : Transport
transport = record {
  method_url =
      λ base method. if ends_with_slash base then base ++ method else base ++ ("/" ++ method);
  method_url-bare = λ base method h. rw h refl;
  method_url-slash = λ base method h. rw h refl;
}

call_path :
    get_note.pathname
    ≡ transport.method_url (browser_base_url notes) "notes.v1.NotesService/GetNote"
unfolding browser_base_url ends_with_slash
call_path = refl

handler-server_headers_example :
    let base = server_base_url environment notes in
    let method : String = "notes.v1.NotesService/GetNote" in
    ((handler false environment notes get_note).headers "authorization"
      ≡ server_headers false jar empty "authorization")
    × (ends_with_slash base ≡ false
        → (handler false environment notes get_note).url ≡ transport.method_url base method)
    × (ends_with_slash base ≡ true
        → ((handler false environment notes get_note).url ≡ base ++ ("/" ++ method))
          × (transport.method_url base method ≡ base ++ method))
handler-server_headers_example =
    handler-server_headers false environment notes "notes.v1.NotesService/GetNote" get_note
      transport call_path refl refl
