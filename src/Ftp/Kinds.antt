-- ===== src/Ftp/Kinds.antt =====
-- lab1-myftp-Heccc257/src/datagram.h and datagram.cpp: the kinds of datagrams and their makers.
use networking_labs.Prelude.{ℕ, List, Bool, true, false}
use networking_labs.Ftp.{Datagram, text_datagram, plain_datagram, bytes_datagram, empty_datagram}

abbrev pub open_conn_request_type : ℕ
open_conn_request_type = 0xa1

abbrev pub open_conn_reply_type : ℕ
open_conn_reply_type = 0xa2

abbrev pub auth_request_type : ℕ
auth_request_type = 0xa3

abbrev pub auth_reply_type : ℕ
auth_reply_type = 0xa4

abbrev pub list_request_type : ℕ
list_request_type = 0xa5

abbrev pub list_reply_type : ℕ
list_reply_type = 0xa6

abbrev pub get_request_type : ℕ
get_request_type = 0xa7

abbrev pub get_reply_type : ℕ
get_reply_type = 0xa8

abbrev pub put_request_type : ℕ
put_request_type = 0xa9

abbrev pub put_reply_type : ℕ
put_reply_type = 0xaa

abbrev pub quit_request_type : ℕ
quit_request_type = 0xab

abbrev pub quit_reply_type : ℕ
quit_reply_type = 0xac

abbrev pub file_data_type : ℕ
file_data_type = 0xff

-- `unused` and `sta0` are 0, `sta1` is 1.
abbrev pub unused : ℕ
unused = 0

-- `byte(status)` of a `bool`.
abbrev pub status_byte : Bool → ℕ
status_byte true = 1
status_byte false = 0

abbrev pub open_conn_request : Datagram
open_conn_request = empty_datagram open_conn_request_type unused

abbrev pub open_conn_reply : ℕ → Datagram
open_conn_reply status = empty_datagram open_conn_reply_type status

abbrev pub auth_request : List ℕ → Datagram
auth_request auth = plain_datagram auth_request_type auth

abbrev pub auth_reply : Bool → Datagram
auth_reply pass = empty_datagram auth_reply_type (status_byte pass)

abbrev pub list_request : Datagram
list_request = empty_datagram list_request_type unused

abbrev pub list_reply : List ℕ → Datagram
list_reply list = text_datagram list_reply_type unused list

abbrev pub quit_request : Datagram
quit_request = empty_datagram quit_request_type unused

abbrev pub quit_reply : Datagram
quit_reply = empty_datagram quit_reply_type unused

abbrev pub get_request : List ℕ → Datagram
get_request filename = text_datagram get_request_type unused filename

abbrev pub get_reply : Bool → Datagram
get_reply status = empty_datagram get_reply_type (status_byte status)

abbrev pub put_request : List ℕ → Datagram
put_request filename = text_datagram put_request_type unused filename

abbrev pub put_reply : Datagram
put_reply = empty_datagram put_reply_type unused

abbrev pub file_data : ℕ → List ℕ → Datagram
file_data len file_buf = bytes_datagram file_data_type unused len file_buf
