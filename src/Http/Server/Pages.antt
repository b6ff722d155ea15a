-- ===== src/Http/Server/Pages.antt =====
-- The constant texts of mytinyhttpd/http/http_server.cc.
use my_tiny_httpd.Prelude.{ℕ, ◌<◌, ◌^◌, List, [], ◌∷◌, codes, length, arith}

unfoldable pub mime_type_map : List (List ℕ × List ℕ)
mime_type_map =
    (codes ".pdf", codes "application/pdf")
    ∷ (codes ".html", codes "text/html; charset=utf-8")
    ∷ (codes ".htm", codes "text/html; charset=utf-8")
    ∷ (codes ".jpg", codes "image/jpeg")
    ∷ (codes ".jpeg", codes "image/jpeg")
    ∷ (codes ".gif", codes "image/gif")
    ∷ (codes ".png", codes "image/png")
    ∷ (codes ".ico", codes "image/x-icon")
    ∷ (codes ".css", codes "text/css")
    ∷ (codes ".au", codes "audio/basic")
    ∷ (codes ".wav", codes "audio/wav")
    ∷ (codes ".avi", codes "video/x-msvideo")
    ∷ (codes ".mov", codes "video/quicktime")
    ∷ (codes ".qt", codes "video/quicktime")
    ∷ (codes ".mpeg", codes "video/mpeg")
    ∷ (codes ".mpe", codes "video/mpeg")
    ∷ (codes ".vrml", codes "model/vrml")
    ∷ (codes ".wrl", codes "model/vrml")
    ∷ (codes ".midi", codes "audio/midi")
    ∷ (codes ".mid", codes "audio/midi")
    ∷ (codes ".mp3", codes "audio/mpeg")
    ∷ (codes ".mp4", codes "audio/mp4")
    ∷ (codes ".ogg", codes "application/ogg")
    ∷ (codes ".pac", codes "application/x-ns-proxy-autoconfig")
    ∷ []

unfoldable pub octet_stream : List ℕ
octet_stream = codes "application/octet-stream"

unfoldable pub html_type : List ℕ
html_type = codes "text/html; charset=utf-8"

pub bad_request : List ℕ
bad_request = codes "HTTP/1.1 400 Bad Request\r\n\r\n"

pub welcome_html : List ℕ
welcome_html =
    codes
      "<!DOCTYPE html><html><head><meta http-equiv=\"Content-Type\" content=\"text/html; charset=windows-1252\"><title>Welcome to MyTinyHttpd!</title><style>body {width: 35em;margin: 0 auto;font-family: Tahoma, Verdana, Arial, sans-serif;}</style></head><body><h1>Welcome to MyTinyHttpd!</h1><p>If you see this page, the MyTinyHttpd web server is successfully installed andworking. Further configuration is required.</p><p><em>Thank you for using MyTinyHttpd.</em></p></body></html>"

pub options_html : List ℕ
options_html =
    codes
      "<html><head><title>MyTinyHttpd Support Options</title></head><body><center><h1>MyTinyHttpd Support Options:</h1></center><center>GET POST HEAD PUT DELETE OPTIONS.</center></body></html>"

pub not_allowed_html : List ℕ
not_allowed_html =
    codes
      "<html><head><title>405 Not Allowed</title></head><body><center><h1>405 Not Allowed</h1></center><hr><center>MyTinyHttpd/0.0.1</center></body></html>"

pub length-welcome_html : length welcome_html < 10 ^ 13
unfolding welcome_html
length-welcome_html = omega arith

pub length-options_html : length options_html < 10 ^ 13
unfolding options_html
length-options_html = omega arith

pub length-not_allowed_html : length not_allowed_html < 10 ^ 13
unfolding not_allowed_html
length-not_allowed_html = omega arith
