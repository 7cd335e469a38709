-- ===== src/Protocol.antt =====
-- src/Protocol.h: the message types and the field names of the JSON protocol.
use my_testserver.Prelude.{Bytes, codes}

abbrev pub msg_type_register : Bytes
msg_type_register = codes "register"

abbrev pub msg_type_login : Bytes
msg_type_login = codes "login"

abbrev pub msg_type_logout : Bytes
msg_type_logout = codes "logout"

abbrev pub msg_type_chat : Bytes
msg_type_chat = codes "chat"

abbrev pub msg_type_heartbeat : Bytes
msg_type_heartbeat = codes "heartbeat"

abbrev pub msg_type_get_history : Bytes
msg_type_get_history = codes "get_history"

abbrev pub msg_type_register_resp : Bytes
msg_type_register_resp = codes "register_resp"

abbrev pub msg_type_login_resp : Bytes
msg_type_login_resp = codes "login_resp"

abbrev pub msg_type_logout_resp : Bytes
msg_type_logout_resp = codes "logout_resp"

abbrev pub msg_type_broadcast : Bytes
msg_type_broadcast = codes "broadcast"

abbrev pub msg_type_history : Bytes
msg_type_history = codes "history"

abbrev pub msg_type_error : Bytes
msg_type_error = codes "error"

abbrev pub msg_type_heartbeat_resp : Bytes
msg_type_heartbeat_resp = codes "heartbeat_resp"

abbrev pub field_msg_type : Bytes
field_msg_type = codes "msgType"

abbrev pub field_username : Bytes
field_username = codes "username"

abbrev pub field_password : Bytes
field_password = codes "password"

abbrev pub field_content : Bytes
field_content = codes "content"

abbrev pub field_success : Bytes
field_success = codes "success"

abbrev pub field_error : Bytes
field_error = codes "error"

abbrev pub field_sender : Bytes
field_sender = codes "sender"

abbrev pub field_timestamp : Bytes
field_timestamp = codes "timestamp"

abbrev pub field_server_time : Bytes
field_server_time = codes "serverTime"

abbrev pub field_online_users : Bytes
field_online_users = codes "onlineUsers"

abbrev pub field_messages : Bytes
field_messages = codes "messages"

abbrev pub field_limit : Bytes
field_limit = codes "limit"
