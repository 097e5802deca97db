-- ===== src/Http/Page.antt =====
-- What a handler sets on its session: flint/src/handler/HttpHandler.cpp. That a header replaces the one with
-- its name is what HTTPSession::setHeader of flint/src/http/HTTPServer.cpp asks of websocketpp.
use flingd_cc.Base.{ℕ, String, Option, none, some, List, [], ◌∷◌, str_eq, if◌then◌else◌}
use flingd_cc.Control.Handler.{Response}

-- `status` is none until one is set.
pub record Page : Type 0 where
  pub status : Option ℕ
  pub headers : List (String × String)
  pub body : String

abbrev pub empty_page : Page
empty_page = record { status = none; headers = []; body = "" }

unfoldable pub replace_header : String → String → List (String × String) → List (String × String)
replace_header k v [] = (k, v) ∷ []
replace_header k v ((j, u) ∷ m) =
    let rest = replace_header k v m in if str_eq j k then (k, v) ∷ m else (j, u) ∷ rest

unfoldable pub set_headers :
    List (String × String) → List (String × String) → List (String × String)
unfolding replace_header
set_headers [] m = m
set_headers ((k, v) ∷ hs) m = set_headers hs (replace_header k v m)

-- the headers of every response
abbrev pub allowances : List (String × String)
allowances =
    ("Access-Control-Allow-Methods", "GET, POST, DELETE, OPTIONS")
    ∷ ("Access-Control-Allow-Origin", "*")
    ∷ ("Access-Control-Allow-Headers", "Content-Type, Authorization, Accept*, X-Requested-With")
    ∷ []

-- HttpHandler::response; without headers and body where it is given a status alone
unfoldable pub response : Response → Page → Page
unfolding set_headers
response r p = record {
  status = some r.status;
  headers = set_headers r.headers (set_headers allowances p.headers);
  body = if str_eq r.content "" then p.body else r.content;
}

unfoldable pub page_of : Option Response → Page
unfolding response
page_of none = empty_page
page_of (some r) = response r empty_page
