-- ===== src/Tests/Fixtures.antt =====
-- Inputs that the tests share.
use hallmaster_proxy.Base.{false, [], ◌∷◌, none, some, pos}
use hallmaster_proxy.Text.{Bytes, codes, Unicode}
use hallmaster_proxy.Http.{Request, Response, rewound}
use hallmaster_proxy.Httpio.{Codecs}

-- Tables with no letter outside ASCII.
abbrev pub ascii_only : Unicode
ascii_only = record { lower = λ s. s; fold = λ s t. false }

-- A gzip reader that drops a header byte, a zlib reader that refuses all, and a brotli reader that
-- copies.
abbrev pub toy_codecs : Codecs
toy_codecs = record {
  gzip_reader = λ b. some (rewound (drop_one b));
  zlib_reader = λ b. none;
  brotli_reader = λ b. rewound b;
}
  where
    drop_one : Bytes → Bytes
    drop_one [] = []
    drop_one (x ∷ b) = b

abbrev pub users_request : Request
users_request = record {
  method = codes "GET";
  host = codes "discord.com";
  url = codes "/api/v10/users/@me";
  raw_query = [];
  proto = codes "HTTP/1.1";
  header = [];
  content_length = pos 0;
  body = none;
}

abbrev pub users_body : Bytes
users_body = codes "{\"id\":\"1\"}"

abbrev pub users_response : Response
users_response = record {
  request = some users_request;
  status = codes "200 OK";
  status_code = 200;
  header =
      ("Content-Type", codes "application/json" ∷ [])
      ∷ ("Transfer-Encoding", codes "chunked" ∷ [])
      ∷ [];
  transfer_encoding = codes "chunked" ∷ [];
  content_length = pos 0;
  body = some (rewound users_body);
}
